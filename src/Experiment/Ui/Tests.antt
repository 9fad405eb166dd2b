-- ===== src/Experiment/Ui/Tests.antt =====
-- web/js/experiment/ui.js: the theorems at an experiment with one conditional and two metrics.
use Prim.Native.String.{String}
use sigopt_server.Base.{ℕ, ◌≡◌, ◌↔◌, refl, Bool, false, not, ◌&&◌, leb, none, some, [], ◌∷◌, All}
use sigopt_server.Utils.Json.{Json, undefined, number, str, Fields, end, field}
use sigopt_server.Experiment.Model.{Parameter, Metric}
use sigopt_server.Experiment.Ui.{Experiment}
use sigopt_server.Experiment.Ui.Metrics.{observation_satisfies_thresholds}
use sigopt_server.Experiment.Ui.Thresholds.{all_good, observation_satisfies_thresholds-all_good}
use sigopt_server.Experiment.Ui.Validation.{valid, validate_assignments_input}
use sigopt_server.Experiment.Ui.Accepted.{IsAccepted, validate_assignments_input_iff}

abbrev metric : String → String → ℕ → Metric
metric name objective threshold = record {
  name = str name;
  objective = objective;
  strategy = str "optimize";
  threshold = number threshold;
  rest = end;
}

abbrev parameter : Parameter
parameter = record {
  name = "x";
  type_name = "double";
  bounds = none;
  categorical_values = none;
  default_value = undefined;
  grid = none;
  conditions = ("c", "a" ∷ []) ∷ [];
  edit_key = none;
  is_new = false;
  rest = end;
}

abbrev experiment : Experiment
experiment = record {
  id = "1";
  object_name = "experiment";
  type_name = none;
  runs_only = false;
  num_solutions = none;
  metrics = metric "loss" "minimize" 5 ∷ metric "accuracy" "maximize" 7 ∷ [];
  parameters = parameter ∷ [];
  conditionals = record { name = "c"; values = "a" ∷ "b" ∷ [] } ∷ [];
}

abbrev at_most : Json → Json → Bool
at_most (number m) (number n) = leb m n
at_most i j = false

observation_satisfies_thresholds-all_good_example :
    observation_satisfies_thresholds at_most experiment false (number 4 ∷ number 8 ∷ [])
    ≡ some (not false && all_good at_most experiment.metrics (number 4 ∷ number 8 ∷ []))
observation_satisfies_thresholds-all_good_example =
    observation_satisfies_thresholds-all_good at_most experiment false (number 4 ∷ number 8 ∷ [])
      refl (refl, (refl, tt))

-- The parameter is not enabled, and has a value.
abbrev assignments : Fields
assignments = field "c" (str "b") (field "x" (number 3) end)

no_name : Parameter → Json
no_name p = undefined

undefined_key : Json → String
undefined_key j = "undefined"

validate_assignments_input_iff_example :
    (validate_assignments_input no_name undefined_key experiment assignments ≡ valid)
    ↔ All (IsAccepted no_name undefined_key experiment assignments) experiment.parameters
validate_assignments_input_iff_example =
    validate_assignments_input_iff no_name undefined_key experiment assignments
