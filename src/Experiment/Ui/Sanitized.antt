-- ===== src/Experiment/Ui/Sanitized.antt =====
-- web/js/experiment/ui.js: which assignments sanitizeAssignments sends.
use Prim.Native.String.{String}
use text.Mathlib.Text.{◌==◌ as str_eq}
use sigopt_server.Base.{
  none, filter, ℕ, ◌≡◌, ◌⊎◌, Bool, true, false, ◌&&◌, Option, some, is_some, List, map, All,
}
use sigopt_server.Utils.Json.{Json, Fields, field_at, value_at, has_key}
use sigopt_server.Experiment.Model.{Parameter}
use sigopt_server.Experiment.Submission.Sent.{keys_of}
use sigopt_server.Experiment.Ui.{
  Conditional, Experiment, is_defined_and_not_null, parameter_enabled,
}
use sigopt_server.Experiment.Ui.Assignments.{sanitize_assignment}

module _ (as_number : String → Option ℕ) (experiment : Experiment) (assignments : Fields) where
  -- The parameter is enabled and has a value to send.
  abbrev pub is_due : Parameter → Bool
  is_due p =
      elim (parameter_enabled experiment assignments p.name) [ none ↦ false | some b ↦ b ]
      && is_defined_and_not_null (sanitize_assignment as_number p (value_at p.name assignments))

  abbrev IsDue : Parameter → Type 0
  IsDue p = is_due p ≡ true

  -- The pairs are those of the parameters that are due.
  AreDue : List Parameter → List (String × Json) → Type 1
  AreDue parameters pairs =
      All (λ (pair : String × Json). parameter_enabled experiment assignments pair.0 ≡ some true)
        pairs
      × ((Q : String → Type 0)
          → All (λ (pair : String × Json). Q pair.0) pairs
          → All (λ (p : Parameter). IsDue p → Q p.name) parameters)

  abbrev pub names : List String
  names = map (λ (c : Conditional). c.name) experiment.conditionals

  -- The keys that are sent, and those that have to be.
  abbrev pub IsNamed : Fields → Type 0
  IsNamed sent =
      All (λ k. (has_key names k ≡ true) ⊎ (parameter_enabled experiment assignments k ≡ some true))
        (keys_of sent)
      × (All (λ (c : Conditional). is_some (field_at c.name sent) ≡ true) experiment.conditionals
          × All (λ (p : Parameter). is_some (field_at p.name sent) ≡ true)
              (filter is_due experiment.parameters))
