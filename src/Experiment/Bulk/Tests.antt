-- ===== src/Experiment/Bulk/Tests.antt =====
-- web/js/pages/experiment: bulk downloads and uploads of an experiment with one numeric and one
-- categorical parameter.
use Prim.Native.String.{String}
use package.text.Mathlib.Text.{◌==◌ as str_eq}
use sigopt_server.Base.{
  ℕ, ◌≡◌, refl, true, false, Option, none, some, List, [], ◌∷◌, if◌then◌else◌, map, ◌++◌, ◌==◌,
}
use sigopt_server.Experiment.Bulk.Calls.{failed}
use sigopt_server.Experiment.Bulk.Columns.{parse_assignment_name, starts_with}
use sigopt_server.Experiment.Bulk.Csv.{
  text, excel_sanitize, excel_unsanitize, begins_formula, excel_unsanitize-excel_sanitize,
}
use sigopt_server.Experiment.Bulk.Download.{StoredObservation, download_cells}
use sigopt_server.Experiment.Bulk.Download.Imported.{
  read_as, read_row, assignments_of-download_cells,
}
use sigopt_server.Experiment.Bulk.Form.{Form}
use sigopt_server.Experiment.Bulk.Observations.{
  Observation, observation_of, assignments_of, defined,
}
use sigopt_server.Experiment.Bulk.Upload.{upload_all}
use sigopt_server.Experiment.Model.{Parameter}
use sigopt_server.Experiment.Ui.{Conditional, Experiment}
use sigopt_server.Utils.Dict.{Dict, extend}
use sigopt_server.Utils.Json.{Json, null, boolean, number, str, Fields, end, field, field_at}

formula_cell : excel_sanitize {A = ℕ} (text " =1+1") ≡ text "  =1+1"
unfolding excel_sanitize
formula_cell = refl

conditional_name : parse_assignment_name "conditional-parameter-x" ≡ "parameter-x"
unfolding parse_assignment_name
conditional_name = refl

abbrev rate : Parameter
rate = record {
  name = "rate";
  type_name = "double";
  bounds = none;
  categorical_values = none;
  default_value = null;
  grid = none;
  conditions = [];
  edit_key = none;
  is_new = false;
  rest = end;
}

abbrev kernel : Parameter
kernel = record rate { name = "kernel"; type_name = "categorical" }

abbrev as_number : String → Option ℕ
as_number s = if str_eq s "0.5" then some 5 else none

abbrev same_case : String → String
same_case s = s

abbrev first_row : Dict String
first_row =
    ("parameter-rate", "0.5")
    ∷ ("parameter-kernel", "rbf")
    ∷ ("value", "0.5")
    ∷ ("value_stddev", "")
    ∷ ("metadata-host", "a")
    ∷ ("failed", "false")
    ∷ []

first_row_assignments :
    assignments_of as_number same_case (rate ∷ kernel ∷ []) first_row
    ≡ ("rate", number 5) ∷ ("kernel", str "rbf") ∷ []
unfolding assignments_of
first_row_assignments = refl

-- A column of a deviation with no value throws.
lone_stddev : observation_of as_number same_case [] (("value_stddev-loss", "0.5") ∷ []) ≡ none
unfolding observation_of
lone_stddev = refl

abbrev one_observation : Observation
one_observation = record {
  assignments = ("rate", number 5) ∷ [];
  failed = str "";
  metadata = none;
  values = none;
  task = none;
}

-- The server refuses its answer of the given number.
abbrev refuses : ℕ → ℕ → Option ℕ
refuses n m = if n == m then some 7 else none

-- Three observations in batches of two: both dry runs are sent, and the first batch for real.
second_refused :
    upload_all {A = ℕ} 0 (refuses 2) 3 2 (1 ∷ 2 ∷ 3 ∷ [])
    ≡ ((1 ∷ 2 ∷ [], true) ∷ (3 ∷ [], true) ∷ (1 ∷ 2 ∷ [], false) ∷ [], failed 7)
unfolding upload_all
second_refused = refl

abbrev uploaded : List Observation
uploaded =
    record {
      assignments = ("rate", number 5) ∷ ("kernel", str "rbf") ∷ [];
      failed = boolean false;
      metadata = some (("host", str "a") ∷ []);
      values = some (record { name = ""; value = number 5; value_stddev = some null } ∷ []);
      task = none;
    }
    ∷ []

abbrev new_form : Form ℕ
new_form = record { loading = true; file = some 1 }

excel_unsanitize-excel_sanitize_example :
    (excel_unsanitize {A = ℕ} (excel_sanitize (text "=1+1")) ≡ text "=1+1")
    × (begins_formula {A = ℕ} (excel_sanitize (text "=1+1")) ≡ false)
excel_unsanitize-excel_sanitize_example = excel_unsanitize-excel_sanitize (text "=1+1")

abbrev downloaded : Experiment
downloaded = record {
  id = "1";
  object_name = "experiment";
  type_name = none;
  runs_only = false;
  num_solutions = none;
  metrics =
      record {
        name = str "";
        objective = "maximize";
        strategy = null;
        threshold = null;
        rest = end;
      }
      ∷ [];
  parameters = rate ∷ kernel ∷ [];
  conditionals = [];
}

abbrev rendered : Fields
rendered = field "rate" (number 7) (field "kernel" (str "=A1") end)

abbrev stored : StoredObservation
stored = record {
  assignments = rendered;
  values = [];
  task_name = null;
  task_cost = null;
  failed = null;
  created = null;
  metadata = end;
  id = null;
}

abbrev shown_as : Json → String
shown_as (number n) = "0.5"
shown_as (boolean true) = "true"
shown_as (boolean false) = "false"
shown_as (str s) = s
shown_as j = ""

assignments_of-download_cells_example :
    assignments_of as_number same_case downloaded.parameters
      (read_row shown_as (download_cells shown_as downloaded false [] rendered stored))
    ≡ extend [] (
        defined (
          map
            (λ (p : Parameter).
              read_as shown_as as_number same_case downloaded.parameters rendered p.name)
            downloaded.parameters
          ++ map
              (λ (c : Conditional).
                read_as shown_as as_number same_case downloaded.parameters rendered c.name)
              downloaded.conditionals))
unfolding download_cells starts_with field_at
assignments_of-download_cells_example =
    assignments_of-download_cells shown_as as_number same_case downloaded false [] rendered stored
      (refl, (refl, (refl, (refl, (refl, (refl, (refl, tt))))))) (refl, (tt, tt)) tt
