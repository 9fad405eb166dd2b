-- ===== src/Chart/Values.antt =====
-- web/js/chart/values.js, constants.js: the axes of a chart, and the value that an observation has
-- of a metric. A number is an integer, and a missing one is none.
use sigopt_server.Base.{Bool, Option, none, some, List, find, ℤ}
use sigopt_server.Experiment.Ui.Metrics.{MetricKey, no_key, at_index, with_name, nth, same_name}
use sigopt_server.Utils.Json.{Json, null}

-- `AxisTypes`.
pub data AxisType : Type 0 where
  parameter : AxisType
  metadata : AxisType
  conditional : AxisType
  task : AxisType
  optimized_metric : AxisType
  stored_metric : AxisType
  constrained_metric : AxisType

pub record Axis : Type 0 where
  pub key : MetricKey
  pub type_name : AxisType

pub record MetricValue : Type 0 where
  pub name : Json
  pub value : Option ℤ

pub record Observed : Type 0 where
  pub value : Option ℤ
  pub values : List MetricValue

abbrev has_name : Json → MetricValue → Bool
has_name key v = same_name v.name key

abbrev find_value_object : List MetricValue → MetricKey → Option MetricValue
find_value_object values no_key = find (has_name null) values
find_value_object values (at_index n) = nth n values
find_value_object values (with_name name) = find (has_name name) values

-- `findValueObject(o, key).value`.
unfoldable pub metric_value : MetricKey → Observed → Option ℤ
metric_value key o = elim (find_value_object o.values key) [ none ↦ o.value | some v ↦ v.value ]
