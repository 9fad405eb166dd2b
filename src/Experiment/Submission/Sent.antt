-- ===== src/Experiment/Submission/Sent.antt =====
-- web/js/experiment/editor.js: the object that sanitizeExperiment hands on, as JSON. When an
-- experiment is created it is the whole input, and otherwise the keys that have changed.
use Prim.Native.String.{String}
use text.Mathlib.Text.{◌==◌ as str_eq}
use sigopt_server.Base.{
  ℕ, Bool, true, not, Option, none, some, List, [], ◌∷◌, ◌++◌, filter, if◌then◌else◌,
}
use sigopt_server.Experiment.Model.{
  Bounds, Conditions, Parameter, Conditional, Metric, MetadataEntry, ExperimentInput,
}
use sigopt_server.Experiment.Submission.{sanitize_input, parameters_data, names_of}
use sigopt_server.Utils.Json.{
  value_at, Json, null, boolean, number, str, array, object, Items, nil, cons, Fields, end, field,
  recursively_omit_keys, omit_fields, field_at, present,
}

abbrev pub items_of : {A : Type 0} → (A → Json) → List A → Items
items_of f [] = nil
items_of f (x ∷ xs) = cons (f x) (items_of f xs)

abbrev pub bounds_json : Option Bounds → Json
bounds_json none = null
bounds_json (some b) = object (field "min" b.min (field "max" b.max end))

abbrev pub categorical_values_json : Option (List String) → Json
categorical_values_json none = null
categorical_values_json (some values) =
    array (items_of (λ name. object (field "name" (str name) end)) values)

abbrev pub conditions_fields : Conditions → Fields
conditions_fields [] = end
conditions_fields ((key, values) ∷ conditions) =
    field key (array (items_of str values)) (conditions_fields conditions)

abbrev pub with_edit_key : Option String → Fields → Fields
with_edit_key none fields = fields
with_edit_key (some key) fields = field "editKey" (str key) fields

abbrev pub with_grid : Option (List ℕ) → Fields → Fields
with_grid none fields = fields
with_grid (some grid) fields = field "grid" (array (items_of number grid)) fields

abbrev pub with_is_new : Bool → Fields → Fields
with_is_new is_new fields = if is_new then field "isNew" (boolean true) fields else fields

-- A default value that was blanked out counts as none.
unfoldable pub parameter_json : Parameter → Json
parameter_json p = object (
    field "name" (str p.name) (
      field "type" (str p.type_name) (
        field "bounds" (bounds_json p.bounds) (
          field "categorical_values" (categorical_values_json p.categorical_values) (
            present "default_value" p.default_value (
              field "conditions" (object (conditions_fields p.conditions))
                (with_is_new p.is_new (with_grid p.grid (with_edit_key p.edit_key p.rest)))))))))

-- With `values` the names.
unfoldable pub conditional_json : Conditional → Json
conditional_json c = object (
    field "name" (str c.name) (
      field "values" (array (items_of str (names_of c.values)))
        (field "editKey" (str c.edit_key) end)))

unfoldable pub metric_json : Metric → Json
metric_json m = object (
    field "name" m.name (
      field "objective" (str m.objective)
        (present "strategy" m.strategy (present "threshold" m.threshold m.rest))))

unfoldable pub set_field : String → Json → Fields → Fields
set_field k j end = field k j end
set_field k j (field l i fields) =
    if str_eq l k then field k j fields else field l i (set_field k j fields)

-- `_.object(keys, values)`: of two entries with one key the later counts.
unfoldable pub metadata_fields : Fields → List MetadataEntry → Fields
unfolding set_field
metadata_fields fields [] = fields
metadata_fields fields (m ∷ metadata) = metadata_fields (set_field m.key m.value fields) metadata

unfoldable pub experiment_fields : ExperimentInput → Json → Fields
unfolding parameter_json conditional_json metric_json
experiment_fields e metadata = field "name" e.name (
    field "metadata" metadata (
      field "parallel_bandwidth" e.parallel_bandwidth (
        field "project" e.project (
          field "observation_budget" e.observation_budget (
            field "budget" e.budget (
              field "parameters" (array (items_of parameter_json e.parameters)) (
                field "metrics" (array (items_of metric_json e.metrics)) (
                  field "conditionals" (array (items_of conditional_json e.conditionals))
                    e.rest))))))))

abbrev pub keys_of : Fields → List String
keys_of end = []
keys_of (field k j fields) = k ∷ keys_of fields

-- `_.pick`.
abbrev pub pick : List String → Fields → Fields
pick [] fields = end
pick (k ∷ keys) fields =
    let rest = pick keys fields in
    elim (field_at k fields) [ none ↦ rest | some j ↦ field k j rest ]

module _ (as_number : String → Option ℕ) where
  unfoldable pub sanitize_for_create : ExperimentInput → List MetadataEntry → Option Json
  unfolding sanitize_input parameters_data experiment_fields metadata_fields recursively_omit_keys
  sanitize_for_create input metadata =
      let e = sanitize_input as_number input in
      elim (parameters_data e.conditionals e.parameters) [
        | none ↦ none
        | some parameters ↦ some (
            recursively_omit_keys ("object" ∷ "editKey" ∷ []) (
              object (
                experiment_fields (record e { parameters = parameters })
                  (object (metadata_fields end metadata)))))
      ]

-- What the editor knows of the experiment as it was loaded.
pub record Loaded : Type 0 where
  pub is_ai_experiment : Bool
  pub can_edit_parameters : Bool
  pub can_edit_metrics : Bool

unfoldable pub keys_for_update : Loaded → List String
keys_for_update loaded =
    ("name"
      ∷ "metadata"
      ∷ "parallel_bandwidth"
      ∷ "project"
      ∷ (if loaded.is_ai_experiment then "budget" else "observation_budget")
      ∷ [])
    ++ ((if loaded.can_edit_parameters then "parameters" ∷ [] else [])
        ++ (if loaded.can_edit_metrics then "metrics" ∷ [] else []))

abbrev pub update_omit_keys : List String
update_omit_keys = "object" ∷ "editKey" ∷ "conditionals" ∷ "conditions" ∷ []

abbrev pub previous_input : Option Fields → Option Fields
unfolding recursively_omit_keys
previous_input none = none
previous_input (some recovered) = some (omit_fields update_omit_keys recovered)

-- `updatedKeys`, with the input at the start of the editing if there is one.
unfoldable pub updated_keys : (Json → Json → Bool) → Fields → Option Fields → List String
updated_keys is_equal experiment none = keys_of experiment
updated_keys is_equal experiment (some previous) =
    filter (λ k. not (is_equal (value_at k experiment) (value_at k previous))) (keys_of experiment)

module _ (as_number : String → Option ℕ) where
  -- `experimentData`.
  unfoldable pub data_for_update : Loaded → ExperimentInput → List MetadataEntry → Fields
  unfolding sanitize_input experiment_fields metadata_fields recursively_omit_keys keys_for_update
  data_for_update loaded input metadata =
      let e = sanitize_input as_number input in
      omit_fields update_omit_keys (
        pick (keys_for_update loaded) (experiment_fields e (object (metadata_fields end metadata))))

  unfoldable pub sanitize_for_update :
      (Json → Json → Bool) → Loaded → Option Fields → ExperimentInput → List MetadataEntry → Fields
  unfolding data_for_update updated_keys recursively_omit_keys
  sanitize_for_update is_equal loaded recovered input metadata =
      let experiment = data_for_update loaded input metadata in
      pick (updated_keys is_equal experiment (previous_input recovered)) experiment
