-- ===== src/Experiment/Ui.antt =====
-- web/js/experiment/ui.js: what the pages ask of an experiment. A function is none where it throws.
pub mod Assignments
pub mod Metrics
pub mod Validation
pub mod Thresholds
pub mod Accepted
pub mod Sanitized
pub mod Measurements
mod Tests
use Prim.Native.String.{String}
use text.Mathlib.Text.{◌==◌ as str_eq}
use sigopt_server.Base.{
  ℕ, Bool, true, false, not, ◌&&◌, ◌||◌, Option, none, some, is_some, List, [], ◌∷◌, ◌++◌, any,
  find, if◌then◌else◌,
}
use sigopt_server.Experiment.Model.{Conditions, Parameter, Metric}
use sigopt_server.Utils.Json.{
  Json, undefined, null, number, str, Fields, is_undefined_or_null, has_key, value_at,
}

-- A conditional as the API gives it, with its values by name.
pub record Conditional : Type 0 where
  pub name : String
  pub values : List String

-- The conditions of a parameter are by name here. `object_name` is the key `object`.
pub record Experiment : Type 0 where
  pub id : String
  pub object_name : String
  pub type_name : Option String
  pub runs_only : Bool
  pub num_solutions : Option ℕ
  pub metrics : List Metric
  pub parameters : List Parameter
  pub conditionals : List Conditional

abbrev pub is_defined_and_not_null : Json → Bool
is_defined_and_not_null j = not (is_undefined_or_null j)

-- `_.contains` of names, for a value that may be no text.
abbrev pub contains : List String → Json → Bool
contains names (str s) = has_key names s
contains names j = false

unfoldable pub find_parameter : Experiment → String → Option Parameter
find_parameter experiment name = find (λ (p : Parameter). str_eq p.name name) experiment.parameters

unfoldable pub find_condition : Experiment → String → Option Conditional
find_condition experiment name =
    find (λ (c : Conditional). str_eq c.name name) experiment.conditionals

-- Whether a condition lets the parameter be: an assignment that is no value of the conditional does.
unfoldable pub condition_met : Conditional → List String → Json → Bool
condition_met condition accepted assignment =
    if contains condition.values assignment then contains accepted assignment else true

-- `_.chain(conditions).map(…).every()`.
unfoldable pub conditions_met : Experiment → Fields → Conditions → Option Bool
unfolding condition_met find_condition
conditions_met experiment assignments [] = some true
conditions_met experiment assignments ((name, accepted) ∷ conditions) =
    let rest = conditions_met experiment assignments conditions in
    elim (find_condition experiment name) [
      | none ↦ none
      | some condition ↦ elim rest [
        | none ↦ none
        | some met ↦ some (condition_met condition accepted (value_at name assignments) && met)
      ]
    ]

unfoldable pub parameter_enabled : Experiment → Fields → String → Option Bool
unfolding conditions_met find_parameter
parameter_enabled experiment assignments name = elim (find_parameter experiment name) [
  | none ↦ none
  | some p ↦ conditions_met experiment assignments p.conditions
]

abbrev pub is_strategy : String → Metric → Bool
is_strategy name m = elim m.strategy [ str s ↦ str_eq s name | _ ↦ false ]

abbrev pub is_metric_optimized : Metric → Bool
is_metric_optimized m = is_strategy "optimize" m

abbrev pub is_metric_constrained : Metric → Bool
is_metric_constrained m = is_strategy "constraint" m

unfoldable pub is_ai_experiment : Experiment → Bool
is_ai_experiment experiment = str_eq experiment.object_name "aiexperiment" || experiment.runs_only
