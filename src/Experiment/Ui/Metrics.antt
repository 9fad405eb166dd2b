-- ===== src/Experiment/Ui/Metrics.antt =====
-- web/js/experiment/ui.js: the metrics of an experiment by strategy, and their thresholds. How
-- JavaScript compares two values by `<=` is a parameter.
use text.Mathlib.Text.{◌==◌ as str_eq}
use sigopt_server.Base.{
  ℕ, zero, suc, ltb, ◌==◌, Bool, true, false, not, ◌&&◌, ◌||◌, Option, none, some, List, [], ◌∷◌,
  map, filter, find, any, length, take, if◌then◌else◌,
}
use sigopt_server.Experiment.Model.{Metric}
use sigopt_server.Experiment.Ui.{
  Experiment, is_defined_and_not_null, is_strategy, is_metric_optimized, is_metric_constrained,
}
use sigopt_server.Utils.Json.{Json, undefined, null, str, is_undefined_or_null}

unfoldable pub optimized_metrics : Experiment → List Metric
optimized_metrics experiment = filter is_metric_optimized experiment.metrics

unfoldable pub stored_metrics : Experiment → List Metric
stored_metrics experiment = filter (is_strategy "store") experiment.metrics

unfoldable pub constrained_metrics : Experiment → List Metric
constrained_metrics experiment = filter is_metric_constrained experiment.metrics

unfoldable pub has_stored_metrics : Experiment → Bool
unfolding stored_metrics
has_stored_metrics experiment = ltb 0 (length (stored_metrics experiment))

unfoldable pub has_constrained_metrics : Experiment → Bool
unfolding constrained_metrics
has_constrained_metrics experiment = ltb 0 (length (constrained_metrics experiment))

unfoldable pub has_multiple_metrics : Experiment → Bool
has_multiple_metrics experiment = ltb 1 (length experiment.metrics)

unfoldable pub is_pareto_optimized_experiment : Experiment → Bool
unfolding optimized_metrics
is_pareto_optimized_experiment experiment = ltb 1 (length (optimized_metrics experiment))

-- `(num_solutions || 1) === 1`.
unfoldable pub is_experiment_single_best : Experiment → Bool
unfolding is_pareto_optimized_experiment
is_experiment_single_best experiment =
    not (is_pareto_optimized_experiment experiment)
    && elim experiment.num_solutions [ none ↦ true | some n ↦ (n == 0) || (n == 1) ]

unfoldable pub is_search_experiment : Experiment → Bool
unfolding optimized_metrics
is_search_experiment experiment = length (optimized_metrics experiment) == 0

unfoldable pub most_important_metrics : Experiment → List Metric
unfolding is_search_experiment constrained_metrics optimized_metrics
most_important_metrics experiment =
    if is_search_experiment experiment
    then take 1 (constrained_metrics experiment)
    else optimized_metrics experiment

unfoldable pub thresholds_allowed_for_experiment : Experiment → Bool
unfolding is_pareto_optimized_experiment has_constrained_metrics
thresholds_allowed_for_experiment experiment =
    is_pareto_optimized_experiment experiment || has_constrained_metrics experiment

unfoldable pub threshold_allowed_for_metric : Experiment → Metric → Bool
unfolding is_pareto_optimized_experiment
threshold_allowed_for_metric experiment metric =
    is_metric_constrained metric
    || is_pareto_optimized_experiment experiment && is_metric_optimized metric

unfoldable pub has_thresholds : Experiment → Bool
has_thresholds experiment =
    any (λ (m : Metric). is_defined_and_not_null m.threshold) experiment.metrics

-- `getThresholds`; a pair stands for the object.
unfoldable pub get_thresholds : Experiment → List (Metric × Json)
get_thresholds experiment = map (λ (m : Metric). (m, m.threshold)) experiment.metrics

-- The key of findMetric: null, an index or a name.
pub data MetricKey : Type 0 where
  no_key : MetricKey
  at_index : ℕ → MetricKey
  with_name : Json → MetricKey

abbrev pub nth {ℓ} : {A : Type ℓ} → ℕ → List A → Option A
nth n [] = none
nth zero (x ∷ xs) = some x
nth (suc n) (x ∷ xs) = nth n xs

-- `===` of names.
abbrev pub same_name : Json → Json → Bool
same_name undefined undefined = true
same_name null null = true
same_name (str s) (str t) = str_eq s t
same_name i j = false

unfoldable pub find_metric : List Metric → MetricKey → Option Metric
find_metric metrics no_key = elim metrics [
  | [] ↦ none
  | m ∷ rest ↦ elim rest [ [] ↦ some m | n ∷ ns ↦ none ]
]
find_metric metrics (at_index n) = nth n metrics
find_metric metrics (with_name name) = find (λ (m : Metric). same_name m.name name) metrics

-- The metric that is found is one of the experiment's, so its own threshold is.
unfoldable pub get_threshold : Experiment → MetricKey → Json
unfolding find_metric
get_threshold experiment key = elim (find_metric experiment.metrics key) [
  | none ↦ null
  | some m ↦ m.threshold
]

-- `_.zip(thresholds, values)` from the list of the values. Of two lists of different lengths the
-- missing ends are undefined, whose keys cannot be read: a missing value only where a threshold
-- asks for it, a missing threshold always.
unfoldable pub threshold_pairs :
    List (Metric × Json) → List Json → Option (List (Metric × (Json × Option Json)))
threshold_pairs [] [] = some []
threshold_pairs [] (v ∷ values) = none
threshold_pairs ((m, t) ∷ thresholds) [] =
    let rest = threshold_pairs thresholds [] in
    if is_undefined_or_null t
    then rest
    else elim rest [ none ↦ none | some pairs ↦ some ((m, (t, none)) ∷ pairs) ]
threshold_pairs ((m, t) ∷ thresholds) (v ∷ values) =
    let rest = threshold_pairs thresholds values in
    if is_undefined_or_null t
    then rest
    else elim rest [ none ↦ none | some pairs ↦ some ((m, (t, some v)) ∷ pairs) ]

module _ (at_most : Json → Json → Bool) where
  -- `metricObjectiveOption` throws on another objective.
  unfoldable pub value_satisfies_threshold : Metric → Json → Json → Option Bool
  value_satisfies_threshold metric value threshold =
      if is_undefined_or_null threshold
      then some true
      else if str_eq metric.objective "minimize"
      then some (at_most value threshold)
      else if str_eq metric.objective "maximize"
      then some (at_most threshold value)
      else none

  -- `every`, up to the first pair that fails.
  unfoldable pub every_satisfies : List (Metric × (Json × Option Json)) → Option Bool
  unfolding value_satisfies_threshold
  every_satisfies [] = some true
  every_satisfies ((m, (t, none)) ∷ pairs) = none
  every_satisfies ((m, (t, some v)) ∷ pairs) =
      let rest = every_satisfies pairs in
      elim (value_satisfies_threshold m v t) [
        | none ↦ none
        | some satisfied ↦ if satisfied then rest else some false
      ]

  unfoldable pub observation_satisfies_thresholds : Experiment → Bool → List Json → Option Bool
  unfolding threshold_pairs every_satisfies get_thresholds
  observation_satisfies_thresholds experiment failed values =
      if failed then some false else elim (threshold_pairs (get_thresholds experiment) values) [
        | none ↦ none
        | some pairs ↦ every_satisfies pairs
      ]
