-- ===== src/Chart/Tests.antt =====
-- web/js/chart: the theorems at a few points.
use Prim.Native.String.{String}
use sigopt_server.Base.{
  ℕ, ◌≡◌, refl, true, false, none, ℤ, ◌-ℤ◌, ◌+ℤ◌, List, Bool, Option, some, [], ◌∷◌, ◌++◌, pos,
  ◌==◌,
}
use sigopt_server.Chart.BestSeen.{
  Seen, maximum, make_best_seen_trace, nth_entry, IsBest, make_best_seen_trace-IsBest,
}
use sigopt_server.Chart.Range.{get_chart_range, compute_range}
use sigopt_server.Chart.Shaded.{shaded}
use sigopt_server.Chart.Thresholds.{
  ChartLayout, AxisLayout, make_options, axis_options, update_layout_for_thresholds,
  get_threshold_shapes, orient_threshold, objective_option,
}
use sigopt_server.Chart.Values.{Axis, Observed, optimized_metric, metric_value}
use sigopt_server.Experiment.Model.{Metric}
use sigopt_server.Experiment.Ui.{Experiment}
use sigopt_server.Experiment.Ui.Metrics.{with_name, get_threshold, find_metric}
use sigopt_server.Utils.Json.{str, number, end}

-- Failed points are 0.
abbrev is_failed : ℕ → Bool
is_failed n = n == 0

make_best_seen_trace-IsBest_example :
    (o : Option (Seen ℕ)) × ((nth_entry maximum is_failed pos 2
          (make_best_seen_trace maximum is_failed pos ((0 ∷ 5 ∷ []) ++ 3 ∷ 7 ∷ []))
        ≡ some o)
      × IsBest maximum is_failed pos ((0 ∷ 5 ∷ []) ++ (3 ∷ [])) o)
make_best_seen_trace-IsBest_example =
    make_best_seen_trace-IsBest maximum is_failed pos (0 ∷ 5 ∷ []) 3 (7 ∷ [])

abbrev metric : String → String → ℕ → Metric
metric name objective threshold = record {
  name = str name;
  objective = objective;
  strategy = str "optimize";
  threshold = number threshold;
  rest = end;
}

abbrev experiment : Experiment
experiment = record {
  id = "1";
  object_name = "experiment";
  type_name = none;
  runs_only = false;
  num_solutions = none;
  metrics = metric "loss" "minimize" 5 ∷ metric "accuracy" "maximize" 7 ∷ [];
  parameters = [];
  conditionals = [];
}

abbrev observed : ℤ → ℤ → Observed
observed loss accuracy = record {
  value = none;
  values =
      record { name = str "loss"; value = some loss }
      ∷ record { name = str "accuracy"; value = some accuracy }
      ∷ [];
}

abbrev axis : String → Axis
axis name = record { key = with_name (str name); type_name = optimized_metric }

abbrev no_layout : AxisLayout ℕ
no_layout = record { autorange = none; range = none; rest = 0 }

abbrev layout : ChartLayout ℕ
layout = record { shapes = none; xaxis = no_layout; yaxis = no_layout }

abbrev observations : List Observed
observations = observed (pos 3) (pos 9) ∷ observed (pos 6) (pos 8) ∷ []

-- The second observation is shaded, since its loss is above the threshold; the first is not.
is_shaded :
    shaded
      (pos 600, pos 800)
      (update_layout_for_thresholds pos experiment observations
        (some (axis "loss"))
        (some (axis "accuracy"))
        layout)
    ≡ some true
unfolding update_layout_for_thresholds axis_options make_options metric_value get_threshold
    find_metric get_chart_range compute_range ◌-ℤ◌ ◌+ℤ◌ get_threshold_shapes orient_threshold
    objective_option
is_shaded = refl

is_clear :
    shaded
      (pos 300, pos 900)
      (update_layout_for_thresholds pos experiment observations
        (some (axis "loss"))
        (some (axis "accuracy"))
        layout)
    ≡ some false
unfolding update_layout_for_thresholds axis_options make_options metric_value get_threshold
    find_metric get_chart_range compute_range ◌-ℤ◌ ◌+ℤ◌ get_threshold_shapes orient_threshold
    objective_option
is_clear = refl
