-- ===== src/Experiment/Ui/Measurements.antt =====
-- web/js/experiment/ui.js: measurements by the strategy of their metrics, the order of the metrics,
-- and what an interaction shows. The order of names is a parameter.
use sigopt_server.Base.{
  Bool, true, false, not, none, some, List, ◌++◌, map, filter, find, any, reverse,
}
use sigopt_server.Experiment.Model.{Metric, Parameter}
use sigopt_server.Experiment.Ui.{Experiment, is_defined_and_not_null, is_metric_optimized}
use sigopt_server.Experiment.Ui.Assignments.{MeasuredValue}
use sigopt_server.Experiment.Ui.Metrics.{same_name}
use sigopt_server.Utils.Json.{Json, undefined, str, value_at}

-- `nameToStrategy[name]`: of two metrics with one name the later counts.
unfoldable pub strategy_named : List Metric → Json → Json
strategy_named metrics name =
    elim (find (λ (m : Metric). same_name m.name name) (reverse metrics)) [
      | none ↦ undefined
      | some m ↦ m.strategy
    ]

-- The group of one strategy.
unfoldable pub group_measurements_by_strategy :
    Experiment → List MeasuredValue → Json → List MeasuredValue
unfolding strategy_named
group_measurements_by_strategy experiment measurements strategy =
    filter (λ (m : MeasuredValue). same_name (strategy_named experiment.metrics m.name) strategy)
      measurements

unfoldable pub optimized_values : Experiment → List MeasuredValue → List Json
unfolding group_measurements_by_strategy
optimized_values experiment measurements =
    map (λ (m : MeasuredValue). m.value)
      (group_measurements_by_strategy experiment measurements (str "optimize"))

-- Two stable sorts, one after the other.
pub sort_metrics : (List Metric → List Metric) → List Metric → List Metric
sort_metrics sort_by_name metrics =
    let sorted = sort_by_name metrics in
    filter is_metric_optimized sorted ++ filter (λ m. not (is_metric_optimized m)) sorted

pub has_prior : Experiment → Bool
has_prior experiment =
    any (λ (p : Parameter). is_defined_and_not_null (value_at "prior" p.rest)) experiment.parameters

pub data InteractionState : Type 0 where
  create modify read_only : InteractionState

pub existing_interaction : InteractionState → Bool
existing_interaction create = false
existing_interaction modify = true
existing_interaction read_only = true

pub input_interaction : InteractionState → Bool
input_interaction create = true
input_interaction modify = true
input_interaction read_only = false
