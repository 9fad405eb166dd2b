-- ===== src/Experiment/Bulk/Observations.antt =====
-- web/js/pages/experiment/core/bulkupload/page.js: the observations that the rows of a file stand for. A
-- row has a text for each column, without the columns that are missing at its end. How JavaScript
-- reads a number, and turns a text into lower case, are parameters.
use Prim.Native.String.{String}
use text.Mathlib.Text.{◌==◌ as str_eq}
use sigopt_server.Base.{
  ℕ, Bool, true, false, not, ◌&&◌, ◌||◌, Option, none, some, List, [], ◌∷◌, map, filter, find,
  reverse, if◌then◌else◌,
}
use sigopt_server.Experiment.Bulk.Columns.{starts_with, slice_from, parse_assignment_name}
use sigopt_server.Experiment.Model.{Parameter, double, integer}
use sigopt_server.Experiment.Submission
use sigopt_server.Experiment.Ui.{is_defined_and_not_null}
use sigopt_server.Experiment.Ui.Assignments.{is_truthy}
use sigopt_server.Utils.Dict.{Dict, get, set, extend}
use sigopt_server.Utils.Json.{Json, undefined, null, boolean, str, has_key}

-- An entry of `valuesByName`. `value_stddev` is none where the key is absent.
pub record NamedValue : Type 0 where
  pub name : String
  pub value : Json
  pub value_stddev : Option Json

-- An observation as the API is given it.
pub record Observation : Type 0 where
  pub assignments : Dict Json
  pub failed : Json
  pub metadata : Option (Dict Json)
  pub values : Option (List NamedValue)
  pub task : Option String

abbrev pub reserved_columns : List String
reserved_columns = "failed" ∷ "created" ∷ "id" ∷ "task_name" ∷ "task_cost" ∷ []

unfoldable pub is_assignment_column : String → Bool
unfolding starts_with
is_assignment_column k =
    not (has_key reserved_columns k)
    && (not (starts_with "metadata-" k) && not (starts_with "value" k))

unfoldable pub is_value_column : String → Bool
unfolding starts_with
is_value_column k = str_eq k "value" || starts_with "value-" k

abbrev pub defined : Dict Json → Dict Json
defined pairs = filter (λ (k, j). is_defined_and_not_null j) pairs

abbrev pub or_null : Dict Json → Option (Dict Json)
or_null [] = none
or_null (entry ∷ d) = some (entry ∷ d)

module _ (as_number : String → Option ℕ) (to_lower_case : String → String) where
  unfoldable pub maybe_as_boolean : Option String → Json
  maybe_as_boolean none = undefined
  maybe_as_boolean (some text) =
      let lowered = to_lower_case text in
      if str_eq lowered "true"
      then boolean true
      else if str_eq lowered "false" || str_eq lowered ""
      then boolean false
      else str text

  unfoldable pub maybe_as_number : String → Json
  maybe_as_number text =
      if str_eq text "" then null else Submission.maybe_as_number as_number (str text)

  unfoldable pub as_assignment : List Parameter → String → String → Json
  unfolding maybe_as_number
  as_assignment parameters assignment_name value =
      elim (find (λ (p : Parameter). str_eq p.name assignment_name) parameters) [
        | some p ↦
            if str_eq p.type_name integer || str_eq p.type_name double
            then maybe_as_number value
            else str value
        | none ↦ str value
      ]

  -- The name and the value that a column assigns.
  abbrev pub assignment_of : List Parameter → String × String → String × Json
  assignment_of parameters (k, text) =
      let name = parse_assignment_name k in (name, as_assignment parameters name text)

  unfoldable pub assignments_of : List Parameter → Dict String → Dict Json
  unfolding extend as_assignment parse_assignment_name is_assignment_column
  assignments_of parameters row =
      extend [] (
        defined (map (assignment_of parameters) (filter (λ (k, text). is_assignment_column k) row)))

  -- The values "" are null by then, so the second `omit` finds none.
  unfoldable pub metadata_of : Dict String → Option (Dict Json)
  unfolding extend starts_with slice_from maybe_as_number
  metadata_of row =
      let entries = extend [] (
        map (λ (k, text). (slice_from 9 k, text))
          (filter (λ (k, text). starts_with "metadata-" k) row)) in
      or_null (defined (map (λ (k, text). (k, maybe_as_number text)) entries))

  abbrev pub value_entry : String × String → String × NamedValue
  value_entry (k, text) =
      let name = if starts_with "value-" k then slice_from 6 k else "" in
      (name, record { name = name; value = maybe_as_number text; value_stddev = none })

  unfoldable pub values_by_name : Dict String → Dict NamedValue
  unfolding extend starts_with slice_from maybe_as_number is_value_column
  values_by_name row = extend [] (map value_entry (filter (λ (k, text). is_value_column k) row))

  -- None where a column names a metric with no value: the assignment to its key throws.
  unfoldable pub add_stddevs : Dict String → Dict NamedValue → Option (Dict NamedValue)
  unfolding get set starts_with slice_from maybe_as_number
  add_stddevs [] values = some values
  add_stddevs ((k, text) ∷ row) values = elim (starts_with "value_stddev" k) [
    | false ↦ add_stddevs row values
    | true ↦ elim (get (slice_from 13 k) values) [
      | none ↦ none
      | some value ↦ add_stddevs row (
          set (slice_from 13 k) (record value { value_stddev = some (maybe_as_number text) })
            values)
    ]
  ]

  abbrev pub observation_with : List Parameter → Dict String → Dict NamedValue → Observation
  observation_with parameters row values =
      let failed = maybe_as_boolean (get "failed" row) in
      record {
        assignments = assignments_of parameters row;
        failed = failed;
        metadata = metadata_of row;
        values = if is_truthy failed then none else some (map (λ (name, value). value) values);
        task = get "task_name" row;
      }

  unfoldable pub observation_of : List Parameter → Dict String → Option Observation
  unfolding add_stddevs values_by_name assignments_of metadata_of maybe_as_boolean
  observation_of parameters row = elim (add_stddevs row (values_by_name row)) [
    | none ↦ none
    | some values ↦ some (observation_with parameters row values)
  ]

  unfoldable pub observations_of_rows :
      List Parameter → List (Dict String) → Option (List Observation)
  unfolding observation_of
  observations_of_rows parameters [] = some []
  observations_of_rows parameters (row ∷ rows) =
      let rest = observations_of_rows parameters rows in
      elim (observation_of parameters row) [
        | none ↦ none
        | some o ↦ elim rest [ none ↦ none | some os ↦ some (o ∷ os) ]
      ]

  -- The rows stand in the file with the newest first.
  unfoldable pub observations : List Parameter → List (Dict String) → Option (List Observation)
  unfolding observations_of_rows
  observations parameters rows = observations_of_rows parameters (reverse rows)
