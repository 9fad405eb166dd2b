-- ===== src/Experiment/State.antt =====
-- web/js/experiment/editor.js: the state around the experiment in the editor: its metadata and the
-- error, and what the editor takes from the experiment as it was loaded. How keys are ordered, and
-- whether a message mentions a missing key, are parameters.
use Prim.Native.String.{String}
use text.Mathlib.Text.{◌==◌ as str_eq}
use sigopt_server.Base.{
  ℕ, Bool, true, false, not, ◌||◌, ◌==◌, Option, none, some, get_or, List, [], ◌∷◌, ◌++◌, map,
  if◌then◌else◌,
}
use sigopt_server.Experiment.Model.{MetadataEntry, ExperimentInput, default_experiment}
use sigopt_server.Experiment.Editor.{set_at, remove_at}
use sigopt_server.Experiment.Submission.Sent.{Loaded, set_field}
use sigopt_server.Experiment.Ui.{Experiment, is_ai_experiment}
use sigopt_server.Experiment.Ui.Metrics.{thresholds_allowed_for_experiment}
use sigopt_server.Utils.Json.{
  Json, undefined, null, boolean, number, str, array, object, Fields, end, field, field_at,
}

pub record ApiError : Type 0 where
  pub status : ℕ
  pub message : String

pub record EditorState : Type 0 where
  pub experiment_input : ExperimentInput
  pub metadata : List MetadataEntry
  pub error : Option ApiError

abbrev pub is_number : Json → Bool
is_number (number n) = true
is_number j = false

abbrev pub metadata_entries : Fields → List MetadataEntry
metadata_entries end = []
metadata_entries (field k j fields) =
    record { key = k; value = j; is_new = false; is_number = is_number j } ∷ metadata_entries fields

-- The constructor, from the experiment's input and its metadata, or from the default.
pub initial_state :
    (List MetadataEntry → List MetadataEntry)
    → Option (ExperimentInput × Fields)
    → String
    → EditorState
unfolding default_experiment
initial_state sort_by_key none key = record {
  experiment_input = default_experiment key;
  metadata = [];
  error = none;
}
initial_state sort_by_key (some (input, fields)) key = record {
  experiment_input = input;
  metadata = sort_by_key (metadata_entries fields);
  error = none;
}

pub on_change_metadata : ℕ → String → Json → Bool → Option Bool → EditorState → EditorState
on_change_metadata index key value is_new is_number s =
    let entry : MetadataEntry = record {
      key = key;
      value = value;
      is_new = is_new;
      is_number = get_or is_number false;
    } in
    record s { metadata = set_at index entry s.metadata }

-- A new entry has no key `number`.
pub on_add_metadata : EditorState → EditorState
on_add_metadata s =
    let entry : MetadataEntry = record {
      key = "";
      value = str "";
      is_new = true;
      is_number = false;
    } in
    record s { metadata = s.metadata ++ (entry ∷ []) }

pub on_remove_metadata : ℕ → EditorState → EditorState
on_remove_metadata index s = record s { metadata = remove_at index s.metadata }

-- The API's answer takes the place of the input; the metadata stay, and lose the key `number`.
pub after_experiment_update : ExperimentInput → EditorState → EditorState
after_experiment_update experiment s = record s {
  experiment_input = experiment;
  metadata = map (λ (m : MetadataEntry). record m { is_new = false; is_number = false }) s.metadata;
}

-- What the alert broker is given.
pub api_error : (String → Bool) → ApiError → Option ApiError
api_error mentions_missing_key error =
    if (error.status == 400) || (error.status == 403)
    then some (
        if mentions_missing_key error.message
        then record error { message = "Please fill in all required values." }
        else error)
    else none

-- `canEditParameters`, `canEditMetrics` and the kind of budget, by the props.
pub loaded_of : Option Experiment → Loaded
loaded_of none = record {
  is_ai_experiment = false;
  can_edit_parameters = true;
  can_edit_metrics = false;
}
loaded_of (some experiment) = record {
  is_ai_experiment = is_ai_experiment experiment;
  can_edit_parameters = elim experiment.type_name [
    | none ↦ true
    | some name ↦ not (str_eq name "grid")
  ];
  can_edit_metrics = thresholds_allowed_for_experiment experiment;
}

-- `o[f] ||= {}`: an object stays, a falsy value becomes an empty one, and no key can be set in
-- another, where it throws. No array and no number 0 stands on the way.
abbrev pub inner_object : Option Json → Option Fields
inner_object none = some end
inner_object (some undefined) = some end
inner_object (some null) = some end
inner_object (some (boolean b)) = if b then none else some end
inner_object (some (number n)) = none
inner_object (some (str s)) = if str_eq s "" then some end else none
inner_object (some (array items)) = none
inner_object (some (object fields)) = some fields

-- The parts of the field's name but the last, and the last.
unfoldable pub set_field_on_object : List String → String → Json → Fields → Option Fields
unfolding set_field
set_field_on_object [] name value fields = some (set_field name value fields)
set_field_on_object (part ∷ parts) name value fields = elim (inner_object (field_at part fields)) [
  | none ↦ none
  | some inner ↦ elim (set_field_on_object parts name value inner) [
    | none ↦ none
    | some changed ↦ some (set_field part (object changed) fields)
  ]
]

-- The alert broker's handler, and the dismissal of the error, which toggleEditing is too.
pub show_error : ApiError → EditorState → EditorState
show_error error s = record s { error = some error }

pub dismiss_error : EditorState → EditorState
dismiss_error s = record s { error = none }

-- What `cancelEditing` of the props gives back: the state at the start of the editing, or nothing.
pub recover : Option EditorState → EditorState → EditorState
recover none s = s
recover (some recovered) s = recovered
