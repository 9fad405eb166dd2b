-- ===== src/Chart/Thresholds.antt =====
-- web/js/chart/thresholds.js: the lines and boxes that mark the thresholds of the metrics on the
-- axes. Coordinates in the data are counted in
-- hundredths, so that the ranges are whole; those on the paper are 0 and 1. What an identity that
-- stands for a number is worth is a parameter. A null axis is none, and none is an exception.
use text.Mathlib.Text.{◌==◌ as str_eq}
use sigopt_server.Base.{
  ℕ, Bool, true, false, Option, none, some, List, [], ◌∷◌, ◌++◌, map, get_or, ℤ, pos, ltb_ℤ,
  if◌then◌else◌,
}
use sigopt_server.Chart.Range.{get_chart_range, times}
use sigopt_server.Chart.Values.{Axis, optimized_metric, constrained_metric, Observed, metric_value}
use sigopt_server.Experiment.Model.{Metric}
use sigopt_server.Experiment.Ui.{Experiment}
use sigopt_server.Experiment.Ui.Metrics.{MetricKey, find_metric, get_threshold}
use sigopt_server.Utils.Json.{Json, number}

-- Whether the axis shows a metric that may have a threshold.
abbrev pub has_threshold_type : Axis → Bool
has_threshold_type axis = elim axis.type_name [
  | optimized_metric ↦ true
  | constrained_metric ↦ true
  | _ ↦ false
]

abbrev pub defined_values : List (Option ℤ) → List ℤ
defined_values [] = []
defined_values (none ∷ os) = defined_values os
defined_values (some a ∷ os) = a ∷ defined_values os

-- `_.min` and `_.max`, of a list that is not empty: the last number, and those before it.
abbrev pub least : List ℤ → ℤ → ℤ
least [] last = last
least (a ∷ rest) last = let low = least rest last in if ltb_ℤ a low then a else low

abbrev pub greatest : List ℤ → ℤ → ℤ
greatest [] last = last
greatest (a ∷ rest) last = let high = greatest rest last in if ltb_ℤ high a then a else high

-- `makeOptions`: `range` is that of `axisLayout`.
pub record ThresholdOptions : Type 0 where
  pub axis : Axis
  pub min : ℤ
  pub max : ℤ
  pub threshold : ℤ
  pub range : ℤ × ℤ

unfoldable pub make_options : List Observed → Axis → ℤ → ThresholdOptions
unfolding metric_value
make_options observations axis threshold =
    let values = defined_values (map (metric_value axis.key) observations) in
    let low = least values threshold in
    let high = greatest values threshold in
    record {
      axis = axis;
      min = low;
      max = high;
      threshold = threshold;
      range = get_chart_range 5 1 (some low) (some high);
    }

-- `ui.metricObjectiveOption`.
abbrev pub metric_objective_option {ℓ} : {A : Type ℓ} → Option Metric → A → A → Option A
metric_objective_option none minimize maximize = none
metric_objective_option (some m) minimize maximize =
    if str_eq m.objective "minimize"
    then some minimize
    else if str_eq m.objective "maximize"
    then some maximize
    else none

-- Of the metric that `ui.findMetric` finds.
unfoldable pub objective_option {ℓ} : {A : Type ℓ} → Experiment → MetricKey → A → A → Option A
objective_option experiment key = metric_objective_option (find_metric experiment.metrics key)

-- The side where the metric is better, then the other.
unfoldable pub orient_threshold : Experiment → ThresholdOptions → Option (ℤ × ℤ)
unfolding objective_option
orient_threshold experiment o =
    let range = get_chart_range 200 1 (some o.min) (some o.max) in
    objective_option experiment o.axis.key range (range.1, range.0)

-- `xref` and `yref`.
pub data Scale : Type 0 where
  data_axis : Scale
  paper : Scale

pub data Kind : Type 0 where
  line : Kind
  rect : Kind

pub record Shape : Type 0 where
  pub xref : Scale
  pub yref : Scale
  pub x0 : ℤ
  pub y0 : ℤ
  pub x1 : ℤ
  pub y1 : ℤ
  pub kind : Kind

abbrev pub in_data : Kind → ℤ × ℤ → ℤ × ℤ → Shape
in_data k (x, y) (x', y') = record {
  xref = data_axis;
  yref = data_axis;
  x0 = x;
  y0 = y;
  x1 = x';
  y1 = y';
  kind = k;
}

abbrev pub across_y : Kind → ℤ → ℤ → Shape
across_y k x x' = record {
  xref = data_axis;
  yref = paper;
  x0 = x;
  y0 = pos 0;
  x1 = x';
  y1 = pos 1;
  kind = k;
}

abbrev pub across_x : Kind → ℤ → ℤ → Shape
across_x k y y' = record {
  xref = paper;
  yref = data_axis;
  x0 = pos 0;
  y0 = y;
  x1 = pos 1;
  y1 = y';
  kind = k;
}

-- From the threshold on each axis, and its two sides.
abbrev pub shapes_of_both : ℤ × ℤ → ℤ × ℤ → ℤ × ℤ → List Shape
shapes_of_both (cx, cy) (tx, ox) (ty, oy) =
    in_data line (cx, cy) (cx, ty)
    ∷ in_data line (cx, cy) (tx, cy)
    ∷ in_data rect (cx, cy) (tx, oy)
    ∷ in_data rect (cx, cy) (ox, oy)
    ∷ in_data rect (cx, cy) (ox, ty)
    ∷ []

abbrev pub with_both : ℤ × ℤ → Option (ℤ × ℤ) → Option (ℤ × ℤ) → Option (List Shape)
with_both center none ys = none
with_both center (some xs) none = none
with_both center (some xs) (some ys) = some (shapes_of_both center xs ys)

abbrev pub with_one : (Kind → ℤ → ℤ → Shape) → ℤ → Option (ℤ × ℤ) → Option (List Shape)
with_one across t none = none
with_one across t (some (better, worse)) = some (across line t t ∷ across rect t worse ∷ [])

unfoldable pub get_threshold_shapes :
    Experiment → Option ThresholdOptions → Option ThresholdOptions → Option (List Shape)
unfolding orient_threshold
get_threshold_shapes experiment (some x) (some y) =
    with_both (times 100 x.threshold, times 100 y.threshold) (orient_threshold experiment x)
      (orient_threshold experiment y)
get_threshold_shapes experiment (some x) none =
    with_one across_y (times 100 x.threshold) (orient_threshold experiment x)
get_threshold_shapes experiment none (some y) =
    with_one across_x (times 100 y.threshold) (orient_threshold experiment y)
get_threshold_shapes experiment none none = some []

-- `layout.xaxis` and `layout.yaxis`; the other keys are one `rest`.
pub record AxisLayout (A : Type 0) : Type 0 where
  pub autorange : Option Bool
  pub range : Option (ℤ × ℤ)
  pub rest : A

pub record ChartLayout (A : Type 0) : Type 0 where
  pub shapes : Option (List Shape)
  pub xaxis : AxisLayout A
  pub yaxis : AxisLayout A

abbrev pub extend_layout : {A : Type 0} → Option ThresholdOptions → AxisLayout A → AxisLayout A
extend_layout none axis_layout = axis_layout
extend_layout (some o) axis_layout = record axis_layout {
  autorange = some false;
  range = some o.range;
}

abbrev pub options_of : List Observed → Axis → Option ℤ → Option ThresholdOptions
options_of observations axis none = none
options_of observations axis (some t) = some (make_options observations axis t)

abbrev pub with_added :
    {A : Type 0}
    → Option ThresholdOptions
    → Option ThresholdOptions
    → ChartLayout A
    → Option (List Shape)
    → Option (ChartLayout A)
with_added x y layout none = none
with_added x y layout (some added) = some (record layout {
  shapes = some (get_or layout.shapes [] ++ added);
  xaxis = extend_layout x layout.xaxis;
  yaxis = extend_layout y layout.yaxis;
})

module _ (value_of : ℕ → ℤ) where
  -- A threshold is a number, null or undefined.
  abbrev pub threshold_value : Json → Option ℤ
  threshold_value (number n) = some (value_of n)
  threshold_value j = none

  abbrev pub axis_threshold : Experiment → Axis → Option ℤ
  axis_threshold experiment axis =
      if has_threshold_type axis then threshold_value (get_threshold experiment axis.key) else none

  unfoldable pub axis_options : Experiment → List Observed → Option Axis → Option ThresholdOptions
  unfolding get_threshold
  axis_options experiment observations none = none
  axis_options experiment observations (some axis) =
      options_of observations axis (axis_threshold experiment axis)

  -- The layout afterwards.
  unfoldable pub update_layout_for_thresholds :
      {A : Type 0}
      → Experiment
      → List Observed
      → Option Axis
      → Option Axis
      → ChartLayout A
      → Option (ChartLayout A)
  unfolding axis_options get_threshold_shapes
  update_layout_for_thresholds experiment observations x_axis y_axis layout =
      let x = axis_options experiment observations x_axis in
      let y = axis_options experiment observations y_axis in
      with_added x y layout (get_threshold_shapes experiment x y)
