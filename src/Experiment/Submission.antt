-- ===== src/Experiment/Submission.antt =====
-- web/js/experiment/editor.js: sanitizeExperiment, from the state of the editor to what is sent to
-- the API. `_.isEqual` of underscore is a parameter, and so is the number that a text denotes.
pub mod Parameters
pub mod Sent
pub mod Changes
pub mod Created
use Prim.Native.String.{String}
use text.Mathlib.Text.{◌==◌ as str_eq}
use sigopt_server.Base.{
  ℕ, Bool, true, false, not, ◌||◌, Option, none, some, is_some, get_or, List, [], ◌∷◌, ◌++◌, map,
  filter, if◌then◌else◌,
}
use sigopt_server.Experiment.Model.{
  categorical, Bounds, Conditions, Parameter, ConditionalValue, Conditional, Metric, MetadataEntry,
  ExperimentInput,
}
use sigopt_server.Experiment.Editor.{find_conditional}
use sigopt_server.Utils.Json.{
  Json, undefined, null, boolean, number, str, array, object, Items, nil, cons, Fields, end, field,
  is_undefined_or_null, has_key, recursively_omit_keys, omit_fields, field_at,
}

abbrev pub ignore_blanks : Json → Json
ignore_blanks (str s) = if str_eq s "" then null else str s
ignore_blanks j = j

module _ (as_number : String → Option ℕ) where
  -- For what is neither an array nor an object; `as_number` is `parseFloat` of a finite text.
  abbrev pub maybe_as_number : Json → Json
  maybe_as_number (str s) = elim (as_number s) [ none ↦ str s | some n ↦ number n ]
  maybe_as_number j = j

  abbrev pub sanitize_number : Json → Json
  sanitize_number j = ignore_blanks (maybe_as_number j)

  abbrev pub sanitize_bounds : Option Bounds → Option Bounds
  sanitize_bounds none = none
  sanitize_bounds (some b) =
      some (record { min = sanitize_number b.min; max = sanitize_number b.max })

  abbrev pub sanitize_default : Bool → Json → Json
  sanitize_default is_categorical value =
      if is_undefined_or_null value
      then value
      else if is_categorical
      then ignore_blanks value
      else sanitize_number value

  unfoldable pub sanitize_parameter : Parameter → Parameter
  sanitize_parameter p =
      let is_categorical = str_eq p.type_name categorical in
      record p {
        bounds = if is_some p.grid || is_categorical then none else sanitize_bounds p.bounds;
        categorical_values = if is_categorical then some (get_or p.categorical_values []) else none;
        default_value = sanitize_default is_categorical p.default_value;
      }

  unfoldable pub sanitize_metric : Metric → Metric
  sanitize_metric m = record m {
    threshold =
        if is_undefined_or_null m.threshold then m.threshold else maybe_as_number m.threshold;
  }

  -- `_.isEmpty` holds of everything but texts and objects with something in them.
  abbrev pub is_empty : Json → Bool
  is_empty (str s) = str_eq s ""
  is_empty (array (cons j items)) = false
  is_empty (object (field k j fields)) = false
  is_empty j = true

  unfoldable pub sanitize_input : ExperimentInput → ExperimentInput
  unfolding sanitize_parameter sanitize_metric
  sanitize_input e = record e {
    parameters = map sanitize_parameter e.parameters;
    metrics = map sanitize_metric e.metrics;
    observation_budget = sanitize_number e.observation_budget;
    budget = sanitize_number e.budget;
    parallel_bandwidth = sanitize_number e.parallel_bandwidth;
    project = if is_empty e.project then null else e.project;
  }

-- `object[key] = value`.
unfoldable pub set_key {ℓ} : {V : Type ℓ} → String → V → List (String × V) → List (String × V)
set_key k v [] = (k, v) ∷ []
set_key k v ((l, w) ∷ m) = if str_eq l k then (k, v) ∷ m else (l, w) ∷ set_key k v m

abbrev pub names_of : List ConditionalValue → List String
names_of values = map (λ (v : ConditionalValue). v.name) values

-- `newConditions`, and none where a condition's conditional is not found.
unfoldable pub conditions_by_name : List Conditional → Conditions → Conditions → Option Conditions
unfolding set_key
conditions_by_name conditionals [] acc = some acc
conditions_by_name conditionals ((key, value_keys) ∷ conditions) acc =
    elim (find_conditional key conditionals) [
      | none ↦ none
      | some c ↦ conditions_by_name conditionals conditions (
          set_key c.name
            (names_of (filter (λ (v : ConditionalValue). has_key value_keys v.edit_key) c.values))
            acc)
    ]

unfoldable pub parameters_data : List Conditional → List Parameter → Option (List Parameter)
unfolding conditions_by_name
parameters_data conditionals [] = some []
parameters_data conditionals (p ∷ parameters) =
    elim (conditions_by_name conditionals p.conditions []) [
      | none ↦ none
      | some conditions ↦ elim (parameters_data conditionals parameters) [
        | none ↦ none
        | some rest ↦ some (record p { conditions = conditions } ∷ rest)
      ]
    ]
