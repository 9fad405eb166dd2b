-- ===== src/Experiment/Copy.antt =====
-- web/js/pages/experiment/core/copy/endpoint.js: the copy of an experiment, with its observations if the
-- form asks for them. The answers of the API are parameters. A name is by characters of the basic
-- plane, and the ids of clients and projects are numbers.
pub mod Chunks
pub mod Names
mod Tests
use Prim.Native.String.{String}
use text.Mathlib.Text.{◌==◌ as str_eq}
use sigopt_server.Base.{
  ℕ, zero, suc, ltb, ◌==◌, Bool, true, false, not, ◌||◌, Option, none, some, List, [], ◌∷◌, ◌++◌,
  map, any, length, take, drop, reverse, if◌then◌else◌,
}
use sigopt_server.Experiment.Bulk.Calls.{sent, failed, unfinished, Run, answered}
use sigopt_server.Experiment.Bulk.Columns.{prefixed}
use sigopt_server.Experiment.Submission.Sent.{set_field}
use sigopt_server.Experiment.Ui.Assignments.{is_truthy}
use sigopt_server.Utils.Json.{
  Json, undefined, null, boolean, number, str, array, object, Items, nil, cons, Fields, end, field,
  has_key, omit_fields, value_at,
}

-- What the API answers.
pub data Answer (A E : Type 0) : Type 0 where
  got : A → Answer A E
  refused : E → Answer A E

-- `_.omit` of one object.
unfoldable pub omit : List String → Fields → Fields
omit keys end = end
omit keys (field k j fields) =
    let rest = omit keys fields in if has_key keys k then rest else field k j rest

abbrev pub uncopied_experiment_keys : List String
uncopied_experiment_keys = "progress" ∷ "client" ∷ "state" ∷ "user" ∷ "development" ∷ "metric" ∷ []

-- `JSON_OBJECT_DENY_LIST`.
abbrev pub json_object_deny_list : List String
json_object_deny_list = "created" ∷ "id" ∷ "object" ∷ "updated" ∷ []

-- `text.length`, and `text.substring(0, n)`.
unfoldable pub count_chars : String → ℕ
count_chars String.[] = 0
count_chars (String.◌∷◌ c s) = suc (count_chars s)

unfoldable pub substring : ℕ → String → String
substring zero s = ""
substring (suc n) String.[] = ""
substring (suc n) (String.◌∷◌ c s) = String.◌∷◌ c (substring n s)

unfoldable pub copied_name : String → String
unfolding count_chars substring prefixed
copied_name name =
    if ltb 45 (count_chars name)
    then prefixed (substring 42 name) "... Copy"
    else prefixed name " Copy"

-- An experiment of the API has a name, which is a text; without one the code throws.
abbrev pub rename : Json → Json
rename (str name) = str (copied_name name)
rename j = j

abbrev pub without : String → Json → Json
without key (object fields) = object (omit (key ∷ []) fields)
without key j = j

abbrev pub without_bounds : Json → Json
without_bounds (object fields) =
    if is_truthy (value_at "grid" fields)
    then object (omit ("bounds" ∷ []) fields)
    else object fields
without_bounds j = j

abbrev pub each_item : (Json → Json) → Items → Items
each_item f nil = nil
each_item f (cons j items) = cons (f j) (each_item f items)

abbrev pub each : (Json → Json) → Json → Json
each f (array items) = array (each_item f items)
each f j = j

-- The changes of one key of `params`.
abbrev pub copied_value : String → Json → Json
copied_value k j =
    if str_eq k "name"
    then rename j
    else if str_eq k "metrics"
    then each (without "object") j
    else if str_eq k "parameters"
    then each without_bounds j
    else j

unfoldable pub change_values : Fields → Fields
unfolding copied_name omit
change_values end = end
change_values (field k j fields) = field k (copied_value k j) (change_values fields)

unfoldable pub copied_params : Fields → Fields
unfolding change_values omit
copied_params experiment =
    change_values (omit_fields json_object_deny_list (omit uncopied_experiment_keys experiment))

abbrev pub uncopied_observation_keys : Bool → List String
uncopied_observation_keys has_values =
    "id"
    ∷ "object"
    ∷ "experiment"
    ∷ "created"
    ∷ "suggestion"
    ∷ (if has_values then "value" ∷ "value_stddev" ∷ [] else "values" ∷ [])

-- `cleaned.values &&= …`.
abbrev pub cleaned_values : Json → Json
cleaned_values j = if is_truthy j then each (without "object") j else j

unfoldable pub change_observation : Fields → Fields
unfolding omit
change_observation end = end
change_observation (field k j fields) =
    field k (if str_eq k "values" then cleaned_values j else j) (change_observation fields)

unfoldable pub cleaned : Bool → Fields → Fields
unfolding change_observation omit
cleaned has_values o = change_observation (omit (uncopied_observation_keys has_values) o)

abbrev pub has_values : List Fields → Bool
has_values observations = any (λ o. is_truthy (value_at "values" o)) observations

-- What is sent of the observations at the head; `head` is theirs, and is reversed twice.
unfoldable pub params_list : List Fields → List Fields
unfolding cleaned
params_list head =
    let observations = reverse head in
    reverse (map (cleaned (has_values observations)) observations)

module _ {E : Type 0} where
  unfoldable pub copy_observations : (ℕ → Option E) → ℕ → ℕ → List Fields → ℕ → Run (List Fields) E
  unfolding params_list
  copy_observations answers fuel n [] chunk_size = ([], sent)
  copy_observations answers zero n (o ∷ all_observations) chunk_size = ([], unfinished)
  copy_observations answers (suc fuel) n (o ∷ all_observations) chunk_size =
      answered (answers n) (params_list (take chunk_size (o ∷ all_observations)))
        (copy_observations answers fuel (suc n) (drop chunk_size (o ∷ all_observations)) chunk_size)

  -- `project` fetches the project of the other client, and `status` reads an error.
  unfoldable pub validate_project :
      (ℕ → Answer ℕ E) → (E → ℕ) → ℕ → ℕ → Option ℕ → Answer (Option ℕ) E
  validate_project project status client_id client own_project =
      if client == client_id then got own_project else elim own_project [
        | none ↦ got none
        | some id ↦ elim (project id) [
          | got found ↦ got (some found)
          | refused e ↦ if status e == 404 then got none else refused e
        ]
      ]

-- Where the request ends: at the form for a team, or at the page of an experiment.
pub data Reply (E : Type 0) : Type 0 where
  to_user_info : Reply E
  to_properties : ℕ → Reply E
  rejected : E → Reply E
  pending : Reply E

-- What the API was asked to create, and the reply.
pub record Copied (E : Type 0) : Type 0 where
  pub created : Option (Fields × Option ℕ)
  pub calls : List (List Fields)
  pub reply : Reply E

pub record Request : Type 0 where
  pub client_id : Option ℕ
  pub is_post : Bool
  pub include_observations : Bool
  pub chunk_size : ℕ

module _ {E : Type 0} where
  abbrev pub copied_to : ℕ → Fields × Option ℕ → Run (List Fields) E → Copied E
  copied_to id params (calls, sent) = record {
    created = some params;
    calls = calls;
    reply = to_properties id;
  }
  copied_to id params (calls, failed e) = record {
    created = some params;
    calls = calls;
    reply = rejected e;
  }
  copied_to id params (calls, unfinished) = record {
    created = some params;
    calls = calls;
    reply = pending;
  }

  abbrev pub nothing_created : Reply E → Copied E
  nothing_created reply = record { created = none; calls = []; reply = reply }

-- The experiment's own keys, and those that the handler reads by themselves.
pub record MatchedExperiment : Type 0 where
  pub id : ℕ
  pub client : ℕ
  pub project : Option ℕ
  pub fields : Fields

module _ {E : Type 0} (project : ℕ → Answer ℕ E) (status : E → ℕ)
    (create : Fields → Option ℕ → Answer ℕ E) (stored : Answer (List Fields) E)
    (answers : ℕ → Option E) where
  -- After the experiment was created.
  unfoldable pub copy_stored : Request → ℕ → Fields × Option ℕ → Copied E
  unfolding copy_observations
  copy_stored request id params =
      if request.include_observations
      then elim stored [
        | refused e ↦ record { created = some params; calls = []; reply = rejected e }
        | got observations ↦ copied_to id params (
            copy_observations answers (length observations) 0 (reverse observations)
              request.chunk_size)
      ]
      else record { created = some params; calls = []; reply = to_properties id }

  unfoldable pub create_copy : Request → Fields → Answer (Option ℕ) E → Copied E
  unfolding copy_stored
  create_copy request params (refused e) = nothing_created (rejected e)
  create_copy request params (got project_id) = elim (create params project_id) [
    | refused e ↦ record { created = some (params, project_id); calls = []; reply = rejected e }
    | got id ↦ copy_stored request id (params, project_id)
  ]

  unfoldable pub parse_params : Request → MatchedExperiment → Copied E
  unfolding create_copy validate_project copied_params
  parse_params request experiment = elim request.client_id [
    | none ↦ nothing_created to_user_info
    | some client_id ↦
        if request.is_post
        then create_copy request (copied_params experiment.fields)
            (validate_project project status client_id experiment.client experiment.project)
        else nothing_created (to_properties experiment.id)
  ]
