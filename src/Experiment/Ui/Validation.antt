-- ===== src/Experiment/Ui/Validation.antt =====
-- web/js/experiment/ui.js: whether an observation may be sent. Each function gives at most one alert.
use Prim.Native.String.{String}
use text.Mathlib.Text.{◌==◌ as str_eq}
use sigopt_server.Base.{
  Bool, true, false, not, ◌&&◌, none, some, is_some, List, [], ◌∷◌, find, if◌then◌else◌,
}
use sigopt_server.Experiment.Model.{Parameter, Metric}
use sigopt_server.Experiment.Ui.{Experiment, is_defined_and_not_null, parameter_enabled}
use sigopt_server.Experiment.Ui.Assignments.{MeasuredValue, Observation, is_truthy, or_empty}
use sigopt_server.Experiment.Ui.Metrics.{same_name}
use sigopt_server.Utils.Json.{Json, undefined, null, boolean, number, str, Fields, value_at}

pub data Alert : Type 0 where
  failed_not_boolean suggestion_and_assignments no_suggestion_or_assignments : Alert
  failed_with_value failed_with_stddev value_not_number stddev_not_number : Json → Alert
  assignment_required conditions_not_satisfied : String → Alert

-- What a validation does: it returns true, or returns false after an alert, or throws.
pub data Verdict : Type 0 where
  valid : Verdict
  invalid : Alert → Verdict
  thrown : Verdict

-- `every`, after a first verdict.
abbrev pub and_then : Verdict → Verdict → Verdict
and_then valid rest = rest
and_then v rest = v

abbrev pub is_empty_input_value : Json → Bool
is_empty_input_value undefined = true
is_empty_input_value null = true
is_empty_input_value (str s) = str_eq s ""
is_empty_input_value j = false

abbrev pub is_number : Json → Bool
is_number (number n) = true
is_number j = false

abbrev pub is_boolean : Json → Bool
is_boolean (boolean b) = true
is_boolean j = false

abbrev pub no_value : MeasuredValue
no_value = record { name = undefined; value = undefined; value_stddev = undefined }

abbrev pub value_named : List MeasuredValue → Json → MeasuredValue
value_named values name = elim (find (λ (v : MeasuredValue). same_name v.name name) values) [
  | none ↦ no_value
  | some v ↦ v
]

unfoldable pub validate_metric : Metric → MeasuredValue → Bool → Verdict
validate_metric m v failed =
    if failed
    then (if is_defined_and_not_null v.value
        then invalid (failed_with_value m.name)
        else if is_defined_and_not_null v.value_stddev
        then invalid (failed_with_stddev m.name)
        else valid)
    else if not (is_number v.value)
    then invalid (value_not_number m.name)
    else if is_defined_and_not_null v.value_stddev && not (is_number v.value_stddev)
    then invalid (stddev_not_number m.name)
    else valid

unfoldable pub validate_each_metric : List Metric → List MeasuredValue → Bool → Verdict
unfolding validate_metric
validate_each_metric [] values failed = valid
validate_each_metric (m ∷ metrics) values failed =
    and_then (validate_metric m (value_named values m.name) failed)
      (validate_each_metric metrics values failed)

unfoldable pub validate_values_input : Experiment → List MeasuredValue → Json → Verdict
unfolding validate_each_metric
validate_values_input experiment values failed =
    if is_defined_and_not_null failed && not (is_boolean failed)
    then invalid failed_not_boolean
    else validate_each_metric experiment.metrics values (is_truthy failed)

-- `name` alone is the window's: `named` is the key of a parameter that it is.
module _ (named : Parameter → Json) (key_of : Json → String) where
  unfoldable pub validate_parameter : Experiment → Fields → Parameter → Verdict
  unfolding parameter_enabled
  validate_parameter experiment assignments p =
      elim (parameter_enabled experiment assignments p.name) [
        | none ↦ thrown
        | some enabled ↦
            if enabled
            then (if is_empty_input_value (value_at p.name assignments)
                then invalid (assignment_required p.name)
                else valid)
            else if not (is_empty_input_value (value_at (key_of (named p)) assignments))
            then invalid (conditions_not_satisfied p.name)
            else valid
      ]

  unfoldable pub validate_each : Experiment → Fields → List Parameter → Verdict
  unfolding validate_parameter
  validate_each experiment assignments [] = valid
  validate_each experiment assignments (p ∷ parameters) =
      and_then (validate_parameter experiment assignments p)
        (validate_each experiment assignments parameters)

  unfoldable pub validate_assignments_input : Experiment → Fields → Verdict
  unfolding validate_each
  validate_assignments_input experiment assignments =
      validate_each experiment assignments experiment.parameters

  unfoldable pub validate_observation_input : Experiment → Observation → Verdict
  unfolding validate_assignments_input validate_values_input
  validate_observation_input experiment o =
      let values = validate_values_input experiment (or_empty o.values) o.failed in
      elim o.assignments [
        | none ↦ if is_some o.suggestion then values else invalid no_suggestion_or_assignments
        | some assignments ↦
            if is_some o.suggestion
            then invalid suggestion_and_assignments
            else and_then (validate_assignments_input experiment assignments) values
      ]
