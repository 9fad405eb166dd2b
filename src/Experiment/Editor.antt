-- ===== src/Experiment/Editor.antt =====
-- web/js/experiment/editor.js, conditionals/input.js and parameter.js: the handlers that change the
-- experiment in the editor, each the updater that it gives to `setState`. A handler is none where it
-- throws. The keys that `editKey()` draws are arguments.
pub mod Selection
pub mod Edits
pub mod References
pub mod Consistent
pub mod Reached
pub mod Chosen
use Prim.Native.String.{String}
use text.Mathlib.Text.{◌==◌ as str_eq}
use sigopt_server.Base.{
  ℕ, zero, suc, Bool, true, false, not, Option, none, some, is_some, List, [], ◌∷◌, ◌++◌, map,
  filter, find, any, if◌then◌else◌,
}
use sigopt_server.Experiment.Model.{
  Bounds, Conditions, Parameter, ConditionalValue, Conditional, Metric, ExperimentInput,
  MetadataEntry, default_metric, default_parameter, default_conditional, parameter_key,
}
use sigopt_server.Utils.Json.{Json, str, null, has_key}

abbrev pub same_parameter : Parameter → Parameter → Bool
unfolding parameter_key
same_parameter p q = str_eq (parameter_key p) (parameter_key q)

-- A parameter that is not found has no place in the list, and what the updater makes of undefined
-- is dropped.
unfoldable pub set_parameter :
    Parameter → (Parameter → Parameter) → ExperimentInput → ExperimentInput
unfolding parameter_key
set_parameter input updater e = elim (find (λ p. same_parameter p input) e.parameters) [
  | none ↦ e
  | some previous ↦ record e {
    parameters = map (λ p. if same_parameter p input then updater previous else p) e.parameters;
  }
]

-- The fields that the inputs of ExperimentInputProperties set.
pub data ExperimentField : Type 0 where
  of_name of_observation_budget of_budget of_parallel_bandwidth : ExperimentField

-- `experimentSetter`: `setFieldOnObject` for a field of one part, with the text of the input.
unfoldable pub experiment_setter : ExperimentField → String → ExperimentInput → ExperimentInput
experiment_setter of_name value e = record e { name = str value }
experiment_setter of_observation_budget value e = record e { observation_budget = str value }
experiment_setter of_budget value e = record e { budget = str value }
experiment_setter of_parallel_bandwidth value e = record e { parallel_bandwidth = str value }

unfoldable pub remove_parameter : Parameter → ExperimentInput → ExperimentInput
remove_parameter input e = record e {
  parameters = filter (λ p. not (same_parameter p input)) e.parameters;
}

unfoldable pub add_parameter : String → ExperimentInput → ExperimentInput
add_parameter key e = record e { parameters = e.parameters ++ (default_parameter key ∷ []) }

-- `list[index] = value` for an index within the list.
abbrev pub set_at {ℓ} : {A : Type ℓ} → ℕ → A → List A → List A
set_at n a [] = []
set_at zero a (x ∷ xs) = a ∷ xs
set_at (suc n) a (x ∷ xs) = x ∷ set_at n a xs

-- `splice(index, 1)`, and `_.reject` of an index.
abbrev pub remove_at {ℓ} : {A : Type ℓ} → ℕ → List A → List A
remove_at n [] = []
remove_at zero (x ∷ xs) = xs
remove_at (suc n) (x ∷ xs) = x ∷ remove_at n xs

pub on_metric_create_change : Metric → ℕ → ExperimentInput → ExperimentInput
on_metric_create_change metric index e = record e { metrics = set_at index metric e.metrics }

pub on_metric_create_remove : ℕ → ExperimentInput → ExperimentInput
on_metric_create_remove index e = record e { metrics = remove_at index e.metrics }

pub add_metric_create : ExperimentInput → ExperimentInput
add_metric_create e = record e { metrics = e.metrics ++ (default_metric ∷ []) }

pub on_metrics_edit_change : List Metric → ExperimentInput → ExperimentInput
on_metrics_edit_change metrics e = record e { metrics = metrics }

unfoldable pub on_add_conditional : String → String → ExperimentInput → ExperimentInput
on_add_conditional value_key key e = record e {
  conditionals = e.conditionals ++ (default_conditional value_key key ∷ []);
}

abbrev pub value_keys : Conditional → List String
value_keys c = map (λ (v : ConditionalValue). v.edit_key) c.values

abbrev pub find_conditional : String → List Conditional → Option Conditional
find_conditional key conditionals = find (λ (c : Conditional). str_eq c.edit_key key) conditionals

-- `_.difference(keys, others)`.
abbrev pub difference : List String → List String → List String
difference keys others = filter (λ k. not (has_key others k)) keys

abbrev pub map_conditions : (List String → List String) → Conditions → Conditions
map_conditions f conditions = map (λ (k, values). (k, f values)) conditions

unfoldable pub remove_condition_values : List String → Parameter → Parameter
remove_condition_values removed p = record p {
  conditions = map_conditions (λ values. difference values removed) p.conditions;
}

-- `updater(undefined)` throws.
unfoldable pub on_change_conditional :
    Conditional → (Conditional → Conditional) → ExperimentInput → Option ExperimentInput
on_change_conditional conditional updater e =
    elim (find_conditional conditional.edit_key e.conditionals) [
      | none ↦ none
      | some previous ↦
          (let changed = updater previous in
            let removed = difference (value_keys previous) (value_keys changed) in
            some (record e {
              conditionals =
                  map
                    (λ (c : Conditional).
                      if str_eq c.edit_key conditional.edit_key then changed else c)
                    e.conditionals;
              parameters = map (remove_condition_values removed) e.parameters;
            }))
    ]

abbrev pub omit_condition : String → Conditions → Conditions
omit_condition key conditions = filter (λ (k, values). not (str_eq k key)) conditions

-- Without parameters the key of a conditional that is not found is not read.
unfoldable pub on_remove_conditional : Conditional → ExperimentInput → Option ExperimentInput
on_remove_conditional conditional e =
    let kept =
      filter (λ (c : Conditional). not (str_eq c.edit_key conditional.edit_key)) e.conditionals in
    elim (find_conditional conditional.edit_key e.conditionals) [
      | none ↦ elim e.parameters [ [] ↦ some (record e { conditionals = kept }) | p ∷ ps ↦ none ]
      | some previous ↦ some (record e {
        conditionals = kept;
        parameters =
            map
              (λ (p : Parameter). record p {
                conditions = omit_condition previous.edit_key p.conditions;
              })
              e.parameters;
      })
    ]

-- The updaters of conditionals/input.js, for `onChangeConditional`.
unfoldable pub change_name : String → Conditional → Conditional
change_name name c = record c { name = name }

unfoldable pub add_value : String → Conditional → Conditional
add_value key c = record c { values = c.values ++ (record { name = ""; edit_key = key } ∷ []) }

unfoldable pub remove_value : ConditionalValue → Conditional → Conditional
remove_value value c = record c {
  values = filter (λ (v : ConditionalValue). not (str_eq v.edit_key value.edit_key)) c.values;
}

unfoldable pub change_value_name : ConditionalValue → String → Conditional → Conditional
change_value_name value name c = record c {
  values =
      map
        (λ (v : ConditionalValue).
          if str_eq v.edit_key value.edit_key then record v { name = name } else v)
        c.values;
}
