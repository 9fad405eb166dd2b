-- ===== src/Experiment/Ui/Accepted.antt =====
-- web/js/experiment/ui.js: which assignments validateAssignmentsInput accepts.
use Prim.Native.String.{String}
use sigopt_server.Base.{
  ◌≡◌, ◌↔◌, refl, Bool, true, false, not, Option, none, some, List, [], ◌∷◌, All, arith,
  if◌then◌else◌,
}
use sigopt_server.Utils.Json.{Json, Fields, value_at}
use sigopt_server.Experiment.Model.{Parameter}
use sigopt_server.Experiment.Ui.{Experiment, parameter_enabled}
use sigopt_server.Experiment.Ui.Validation.{
  Verdict, assignment_required, conditions_not_satisfied, valid, invalid, thrown, and_then,
  is_empty_input_value, validate_parameter, validate_each, validate_assignments_input,
}

valid-enabled :
    (p : Parameter) (o : Option Bool) (missing other : Bool)
    → elim o [
      | none ↦ thrown
      | some enabled ↦
          if enabled
          then (if missing then invalid (assignment_required p.name) else valid)
          else if not other
          then invalid (conditions_not_satisfied p.name)
          else valid
    ]
      ≡ valid
    → (enabled : Bool) × (o ≡ some enabled) × ((if enabled then not missing else other) ≡ true)
valid-enabled p none missing other h = ground arith
valid-enabled p (some true) true other h = ground arith
valid-enabled p (some true) false other h = (true, refl, refl)
valid-enabled p (some false) missing true h = (false, refl, refl)
valid-enabled p (some false) missing false h = ground arith

module _ (named : Parameter → Json) (key_of : Json → String) (experiment : Experiment)
    (assignments : Fields) where
  abbrev pub is_given : String → Bool
  is_given key = not (is_empty_input_value (value_at key assignments))

  -- A parameter is enabled and has a value, or it is not, and the key that its property for the
  -- global `name` stands for has none.
  abbrev pub IsAccepted : Parameter → Type 0
  IsAccepted p =
      (enabled : Bool) × (parameter_enabled experiment assignments p.name ≡ some enabled)
      × ((if enabled then is_given p.name else not (is_given (key_of (named p)))) ≡ true)

  parameter_accepted :
      (p : Parameter)
      → IsAccepted p
      → validate_parameter named key_of experiment assignments p ≡ valid
  unfolding validate_parameter
  parameter_accepted p (true, e, given) = rw (e, validate_parameter) (ground arith)
  parameter_accepted p (false, e, given) = rw (e, validate_parameter) (ground arith)

  valid_parameter :
      (p : Parameter)
      → validate_parameter named key_of experiment assignments p ≡ valid
      → IsAccepted p
  unfolding validate_parameter
  valid_parameter p h =
      let (enabled, e, given) =
        valid-enabled p (parameter_enabled experiment assignments p.name)
          (is_empty_input_value (value_at p.name assignments))
          (is_empty_input_value (value_at (key_of (named p)) assignments)) h in
      (enabled, e, not_not enabled _ _ given)
    where
      not_not :
          (enabled missing other : Bool)
          → (if enabled then not missing else other) ≡ true
          → (if enabled then not missing else not (not other)) ≡ true
      not_not true missing other given = given
      not_not false missing other given = ground arith

  each_accepted :
      (ps : List Parameter)
      → All IsAccepted ps
      → validate_each named key_of experiment assignments ps ≡ valid
  unfolding validate_each
  each_accepted [] h = refl
  each_accepted (p ∷ ps) (r, h) = rw (parameter_accepted p r, and_then) (each_accepted ps h)

  and_then-valid : (v w : Verdict) → and_then v w ≡ valid → (v ≡ valid) × (w ≡ valid)
  and_then-valid valid w h = (refl, h)
  and_then-valid (invalid a) w h = ground arith
  and_then-valid thrown w h = ground arith

  valid_each :
      (ps : List Parameter)
      → validate_each named key_of experiment assignments ps ≡ valid
      → All IsAccepted ps
  unfolding validate_each
  valid_each [] h = tt
  valid_each (p ∷ ps) h =
      let (first, rest) =
        and_then-valid (validate_parameter named key_of experiment assignments p)
          (validate_each named key_of experiment assignments ps) h in
      (valid_parameter p first, valid_each ps rest)

  -- validateAssignmentsInput returns true exactly if each enabled parameter has a value and, for
  -- each parameter that is not enabled, the assignments have no value under the key that its
  -- property for the global `name` stands for; what is assigned to such a parameter under its own
  -- name is not looked at.
  pub validate_assignments_input_iff :
      (validate_assignments_input named key_of experiment assignments ≡ valid)
      ↔ All IsAccepted experiment.parameters
  unfolding validate_assignments_input
  validate_assignments_input_iff =
      (valid_each experiment.parameters, each_accepted experiment.parameters)
