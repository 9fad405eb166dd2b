-- ===== src/Experiment/Bulk/Download.antt =====
-- web/js/pages/experiment/core/bulkdownload/endpoint.js: the columns of the file that an experiment's
-- observations are downloaded in. How JavaScript writes a value as a text is a parameter, and so are
-- the names of the metadata columns, which depend on all observations. A file that csv-stringify has
-- written is read by csv-parse cell by cell as it was written.
pub mod ColumnNames
pub mod Imported
use Prim.Native.String.{String}
use package.text.Mathlib.Text.{◌==◌ as str_eq}
use sigopt_server.Base.{
  Bool, true, false, not, ◌&&◌, ◌||◌, Option, none, some, List, [], ◌∷◌, ◌++◌, map, find,
  if◌then◌else◌,
}
use sigopt_server.Experiment.Bulk.Columns.{prefixed}
use sigopt_server.Experiment.Bulk.Csv.{Cell, text, other, excel_sanitize, excel_unsanitize}
use sigopt_server.Experiment.Model.{Parameter, Metric}
use sigopt_server.Experiment.Ui.{Conditional, Experiment}
use sigopt_server.Experiment.Ui.Assignments.{MeasuredValue, is_truthy}
use sigopt_server.Experiment.Ui.Metrics.{same_name}
use sigopt_server.Utils.Dict.{Dict}
use sigopt_server.Utils.Json.{Json, undefined, str, Fields, is_undefined_or_null, value_at}

-- An observation from the API, with what the download reads of it.
pub record StoredObservation : Type 0 where
  pub assignments : Fields
  pub values : List MeasuredValue
  pub task_name : Json
  pub task_cost : Json
  pub failed : Json
  pub created : Json
  pub metadata : Fields
  pub id : Json

-- `m.name ? prefix-name : prefix`.
unfoldable pub metric_column : String → String → Json → String
unfolding prefixed
metric_column prefix bare (str s) = if str_eq s "" then bare else prefixed prefix s
metric_column prefix bare j = bare

unfoldable pub find_value : List MeasuredValue → Json → Option MeasuredValue
find_value values name =
    find
      (λ (v : MeasuredValue).
        same_name v.name name || (not (is_truthy name) && not (is_truthy v.name)))
      values

abbrev pub value_part : (MeasuredValue → Json) → Option MeasuredValue → Json
value_part part none = undefined
value_part part (some v) = part v

abbrev pub cell_of : Json → Cell Json
cell_of (str s) = text s
cell_of j = other j

abbrev pub text_of : Cell Json → String
text_of (text s) = s
text_of (other j) = ""

module _ (to_string : Json → String) where
  unfoldable pub as_string : Json → String
  as_string j = if is_undefined_or_null j then "" else to_string j

  abbrev pub value_cells : StoredObservation → Metric → Dict Json
  value_cells o m =
      (
        metric_column "value-" "value" m.name,
        str (as_string (value_part (λ v. v.value) (find_value o.values m.name))),
      )
      ∷ (
        metric_column "value_stddev-" "value_stddev" m.name,
        str (as_string (value_part (λ v. v.value_stddev) (find_value o.values m.name))),
      )
      ∷ []

  abbrev pub all_value_cells : StoredObservation → List Metric → Dict Json
  all_value_cells o [] = []
  all_value_cells o (m ∷ metrics) = value_cells o m ++ all_value_cells o metrics

  abbrev pub parameter_cell : Fields → Parameter → String × Json
  parameter_cell ra p = (prefixed "parameter-" p.name, value_at p.name ra)

  abbrev pub conditional_cell : Fields → Conditional → String × Json
  conditional_cell ra c = (prefixed "conditional-" c.name, value_at c.name ra)

  abbrev pub task_cells : Bool → StoredObservation → Dict Json
  task_cells has_tasks o =
      if has_tasks
      then ("task_name", o.task_name) ∷ ("task_cost", str (as_string o.task_cost)) ∷ []
      else []

  abbrev pub metadata_cell : StoredObservation → String → String × Json
  metadata_cell o key = (prefixed "metadata-" key, str (as_string (value_at key o.metadata)))

  abbrev pub other_cells : Experiment → Bool → List String → StoredObservation → Dict Json
  other_cells experiment has_tasks metadata_keys o =
      all_value_cells o experiment.metrics
      ++ (task_cells has_tasks o
          ++ (("failed", str (as_string o.failed)) ∷ ("created", str (as_string o.created)) ∷ []
              ++ (map (metadata_cell o) metadata_keys ++ ("id", str (as_string o.id)) ∷ [])))

  -- The row of an observation, by columns; `ra` are its rendered assignments.
  unfoldable pub download_cells :
      Experiment → Bool → List String → Fields → StoredObservation → Dict Json
  unfolding as_string metric_column find_value prefixed
  download_cells experiment has_tasks metadata_keys ra o =
      map (parameter_cell ra) experiment.parameters
      ++ (map (conditional_cell ra) experiment.conditionals
          ++ other_cells experiment has_tasks metadata_keys o)

  -- The text that a cell has in the file.
  abbrev pub file_text : Cell Json → String
  file_text (text s) = s
  file_text (other j) = as_string j

  -- What is read where a value was written.
  unfoldable pub read_back : Json → String
  unfolding excel_sanitize excel_unsanitize as_string
  read_back j = text_of (excel_unsanitize (text (file_text (excel_sanitize (cell_of j)))))
