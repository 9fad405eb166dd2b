-- ===== src/Experiment/Ui/Assignments.antt =====
-- web/js/experiment/ui.js: assignments and values as a form starts with them, shows them and sends
-- them. How JavaScript writes a number or a value as a text is a parameter.
use Prim.Native.String.{String}
use text.Mathlib.Text.{◌==◌ as str_eq}
use sigopt_server.Base.{
  ℕ, Bool, true, false, not, ◌&&◌, Option, none, some, is_some, List, [], ◌∷◌, ◌++◌, map, filter,
  if◌then◌else◌,
}
use sigopt_server.Experiment.Model.{Parameter, Metric, categorical, double, integer}
use sigopt_server.Experiment.Submission.{maybe_as_number, sanitize_number}
use sigopt_server.Experiment.Submission.Sent.{set_field}
use sigopt_server.Experiment.Ui.{
  Conditional, Experiment, is_defined_and_not_null, parameter_enabled,
}
use sigopt_server.Utils.Json.{
  Json, undefined, null, boolean, str, Fields, end, field_at, value_at, is_undefined_or_null,
}

-- `_.object(pairs)`, added to what is there.
unfoldable pub object_of : Fields → List (String × Json) → Fields
unfolding set_field
object_of fields [] = fields
object_of fields ((k, j) ∷ pairs) = object_of (set_field k j fields) pairs

abbrev pub first_name : List String → Json
first_name [] = undefined
first_name (name ∷ names) = str name

abbrev pub first_category : Option (List String) → Json
first_category none = null
first_category (some []) = null
first_category (some (name ∷ names)) = str name

unfoldable pub get_initial_assignments : Experiment → Fields
unfolding object_of
get_initial_assignments experiment = object_of end (
    map (λ (c : Conditional). (c.name, first_name c.values)) experiment.conditionals
    ++ map (λ (p : Parameter). (p.name, first_category p.categorical_values)) experiment.parameters)

pub record Texts : Type 0 where
  pub render_number : Json → Json
  pub to_fixed : Json → Json
  pub to_string : Json → Json

pub record MeasuredValue : Type 0 where
  pub name : Json
  pub value : Json
  pub value_stddev : Json

unfoldable pub get_initial_values : Experiment → List MeasuredValue
get_initial_values experiment =
    map (λ (m : Metric). record { name = m.name; value = null; value_stddev = null })
      experiment.metrics

unfoldable pub conditional_assignments : Experiment → Fields → List (String × Json)
conditional_assignments experiment assignments =
    map (λ (c : Conditional). (c.name, value_at c.name assignments)) experiment.conditionals

module _ (texts : Texts) where
  unfoldable pub render_input_value : Json → Json
  render_input_value value = if is_defined_and_not_null value then texts.to_string value else str ""

  unfoldable pub render_param_value : Option Parameter → Json → Json
  unfolding render_input_value
  render_param_value parameter (str s) = str s
  render_param_value none value = render_input_value value
  render_param_value (some p) value =
      if is_undefined_or_null value
      then render_input_value value
      else if str_eq p.type_name double
      then texts.render_number value
      else if str_eq p.type_name integer
      then texts.to_fixed value
      else render_input_value value

  unfoldable pub render_assignments : Option Experiment → Fields → Fields
  unfolding object_of render_param_value conditional_assignments
  render_assignments none assignments = end
  render_assignments (some experiment) assignments =
      let shown : List Parameter = elim experiment.conditionals [
        | [] ↦ experiment.parameters
        | c ∷ cs ↦
            filter (λ (p : Parameter). is_some (field_at p.name assignments)) experiment.parameters
      ] in
      object_of end (
        conditional_assignments experiment assignments
        ++ map
            (λ (p : Parameter). (p.name, render_param_value (some p) (value_at p.name assignments)))
            shown)

module _ (as_number : String → Option ℕ) where
  unfoldable pub sanitize_assignment : Parameter → Json → Json
  sanitize_assignment p assignment =
      if str_eq p.type_name categorical then assignment else sanitize_number as_number assignment

  -- The enabled parameters with a value; none where parameterEnabled throws.
  unfoldable pub parameter_assignments :
      Experiment → Fields → List Parameter → Option (List (String × Json))
  unfolding sanitize_assignment parameter_enabled
  parameter_assignments experiment assignments [] = some []
  parameter_assignments experiment assignments (p ∷ parameters) =
      let rest = parameter_assignments experiment assignments parameters in
      let assignment = sanitize_assignment p (value_at p.name assignments) in
      elim (parameter_enabled experiment assignments p.name) [
        | none ↦ none
        | some enabled ↦ elim rest [
          | none ↦ none
          | some pairs ↦ some (
              if enabled && is_defined_and_not_null assignment
              then (p.name, assignment) ∷ pairs
              else pairs)
        ]
      ]

  unfoldable pub sanitize_assignments : Experiment → Fields → Option Fields
  unfolding parameter_assignments object_of conditional_assignments
  sanitize_assignments experiment assignments =
      elim (parameter_assignments experiment assignments experiment.parameters) [
        | none ↦ none
        | some pairs ↦
            some (object_of end (conditional_assignments experiment assignments ++ pairs))
      ]

  unfoldable pub sanitize_value : Texts → MeasuredValue → MeasuredValue
  sanitize_value texts v = record {
    name = if is_defined_and_not_null v.name then texts.to_string v.name else null;
    value = maybe_as_number as_number v.value;
    value_stddev = elim v.value_stddev [
      | str s ↦ if str_eq s "" then null else maybe_as_number as_number (str s)
      | _ ↦ maybe_as_number as_number v.value_stddev
    ];
  }

-- `assignments`, `suggestion` and `values` are none where they are null or absent; `failed` is no
-- number.
pub record Observation : Type 0 where
  pub assignments : Option Fields
  pub suggestion : Option String
  pub failed : Json
  pub values : Option (List MeasuredValue)

abbrev pub is_truthy : Json → Bool
is_truthy (boolean b) = b
is_truthy (str s) = not (str_eq s "")
is_truthy j = is_defined_and_not_null j

abbrev pub suggestion_of : Option Observation → Option String
suggestion_of none = none
suggestion_of (some o) = o.suggestion

abbrev pub or_empty {ℓ} : {A : Type ℓ} → Option (List A) → List A
or_empty none = []
or_empty (some xs) = xs

module _ (as_number : String → Option ℕ) (texts : Texts) (is_equal : Fields → Fields → Bool) where
  -- Whether the assignments are those of the initial observation, or there are none.
  unfoldable pub is_unchanged : Option Fields → Option Observation → Bool
  is_unchanged none initial = true
  is_unchanged (some sanitized) none = false
  is_unchanged (some sanitized) (some initial) = elim initial.assignments [
    | none ↦ false
    | some before ↦ is_equal sanitized before
  ]

  -- With the suggestion, if there is one and the assignments are its own; with them otherwise.
  unfoldable pub observation_sent :
      Option Fields → Option String → Observation → Option Observation → Observation
  unfolding is_unchanged sanitize_value
  observation_sent sanitized suggestion_id observation initial =
      let by_suggestion = is_some suggestion_id && is_unchanged sanitized initial in
      record {
        assignments = if by_suggestion then none else sanitized;
        suggestion = if by_suggestion then suggestion_id else none;
        failed = observation.failed;
        values =
            if is_truthy observation.failed
            then none
            else some (map (sanitize_value as_number texts) (or_empty observation.values));
      }

  unfoldable pub sanitize_observation :
      Experiment → Observation → Option Observation → Option Observation
  unfolding observation_sent sanitize_assignments
  sanitize_observation experiment observation initial =
      let suggestion_id : Option String = elim observation.suggestion [
        | none ↦ suggestion_of initial
        | some s ↦ some s
      ] in
      elim observation.assignments [
        | none ↦ some (observation_sent none suggestion_id observation initial)
        | some assignments ↦ elim (sanitize_assignments as_number experiment assignments) [
          | none ↦ none
          | some sanitized ↦
              some (observation_sent (some sanitized) suggestion_id observation initial)
        ]
      ]
