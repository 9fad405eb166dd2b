-- ===== src/Experiment/Editor/Edits.antt =====
-- web/js/experiment/editor.js: the changes of an experiment that is being created, as steps from one
-- input to the next, and what the conditions of the parameters refer to.
use Prim.Native.String.{String}
use sigopt_server.Base.{ℕ, ◌≡◌, true, some, List, All}
use sigopt_server.Utils.Json.{has_key}
use sigopt_server.Experiment.Model.{
  Parameter, ConditionalValue, Conditional, Metric, ExperimentInput,
}
use sigopt_server.Experiment.Editor.{
  ExperimentField, experiment_setter, set_parameter, remove_parameter, add_parameter,
  on_metric_create_change, on_metric_create_remove, on_metrics_edit_change, add_metric_create,
  on_add_conditional, on_change_conditional, on_remove_conditional, value_keys, find_conditional,
  change_name, add_value, remove_value, change_value_name,
}
use sigopt_server.Experiment.Editor.Selection.{on_add_condition, on_remove_condition}

-- The updaters that ConditionalsCreate gives to `onChangeConditional`.
pub data ConditionalChange : Type 0 where
  renamed : String → ConditionalChange
  value_added : String → ConditionalChange
  value_removed : ConditionalValue → ConditionalChange
  value_renamed : ConditionalValue → String → ConditionalChange

abbrev pub updater_of : ConditionalChange → Conditional → Conditional
unfolding change_name add_value remove_value change_value_name
updater_of (renamed name) = change_name name
updater_of (value_added key) = add_value key
updater_of (value_removed value) = remove_value value
updater_of (value_renamed value name) = change_value_name value name

-- One step. The row of a value, where a condition is added, shows a conditional and a value of the
-- input; a handler that throws makes no step.
pub data Edit (e : ExperimentInput) : ExperimentInput → Type 0 where
  field_set : (input : ExperimentField) (value : String) → Edit e (experiment_setter input value e)
  parameter_set :
      (input : Parameter) (updater : Parameter → Parameter)
      → ((p : Parameter) → (updater p).conditions ≡ p.conditions)
      → Edit e (set_parameter input updater e)
  parameter_removed : (input : Parameter) → Edit e (remove_parameter input e)
  parameter_added : (key : String) → Edit e (add_parameter key e)
  metric_changed : (m : Metric) (index : ℕ) → Edit e (on_metric_create_change m index e)
  metrics_edited : (metrics : List Metric) → Edit e (on_metrics_edit_change metrics e)
  metric_removed : (index : ℕ) → Edit e (on_metric_create_remove index e)
  metric_added : Edit e (add_metric_create e)
  conditional_added : (value_key key : String) → Edit e (on_add_conditional value_key key e)
  conditional_changed :
      (c : Conditional) (change : ConditionalChange) (e' : ExperimentInput)
      → on_change_conditional c (updater_of change) e ≡ some e'
      → Edit e e'
  conditional_removed :
      (c : Conditional) (e' : ExperimentInput) → on_remove_conditional c e ≡ some e' → Edit e e'
  condition_added :
      (c : Conditional) (value : ConditionalValue) (input : Parameter)
      → find_conditional c.edit_key e.conditionals ≡ some c
      → has_key (value_keys c) value.edit_key ≡ true
      → Edit e (on_add_condition c value input e)
  condition_removed :
      (c : Conditional) (value : ConditionalValue) (input : Parameter)
      → Edit e (on_remove_condition c value input e)

pub data Edits (e : ExperimentInput) : ExperimentInput → Type 0 where
  unchanged : Edits e e
  further : {d d' : ExperimentInput} → Edits e d → Edit d d' → Edits e d'

-- The conditional of a condition exists, and so do its values.
abbrev pub Refers : List Conditional → String × List String → Type 0
Refers conditionals (key, values) =
    (c : Conditional) × ((find_conditional key conditionals ≡ some c)
      × All (λ v. has_key (value_keys c) v ≡ true) values)

abbrev pub AllRefer : List Conditional → Parameter → Type 0
AllRefer conditionals p = All (Refers conditionals) p.conditions

abbrev pub IsConsistent : ExperimentInput → Type 0
IsConsistent e = All (AllRefer e.conditionals) e.parameters
