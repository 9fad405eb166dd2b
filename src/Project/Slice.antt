-- ===== src/Project/Slice.antt =====
-- web/js/pages/project/state/dimensions_slice.js: the reducers of the slice, each from the state
-- and its payload to the next state, or none where it throws. `rows` is what the table's
-- `forEachNodeAfterFilter` visits at that moment. A tag and the checkpoints of the runs stand by
-- an identity, and `undefined` in a selection by none.
pub mod Consistent
use Prim.Native.String.{String}
use text.Mathlib.Text.{◌==◌ as str_eq}
use sigopt_server.Base.{
  ℕ, Bool, true, false, not, ltb, Option, none, some, is_some, get_or, List, [], ◌∷◌, map, any,
  if◌then◌else◌,
}
use sigopt_server.Project.Dimensions.{
  Value, undefined, null, str, same, Field, Dimension, NumberMap, lookup, put,
}
use sigopt_server.Project.Dimensions.Create.{Services, create_dimensions_from_runs}

pub record HoverInfo : Type 0 where
  pub run_index : Option ℕ
  pub run_id : Option ℕ
  pub checkpoint_index : Option ℕ

pub record FilterModel : Type 0 where
  pub key : Option String
  pub value : Value

-- The keys of a run that the reducers read; `model_type` is none if the run has no model.
pub record RunKeys (R : Type 0) : Type 0 where
  pub checkpoint_count : R → ℕ
  pub experiment : R → Value
  pub model_type : R → Option Value

pub record Slice (R : Type 0) : Type 0 where
  pub all_runs : Option (List R)
  pub checkpoints_by_run_id : Option ℕ
  pub defined_fields : List Field
  pub dimensions : Option (List Dimension)
  pub filter_model : Option FilterModel
  pub hover_info : HoverInfo
  pub id_index_map : NumberMap
  pub index_id_map : NumberMap
  pub runs : Option (List R)
  pub runs_by_id : List (ℕ × R)
  pub selected_ids : List (Option ℕ)
  pub selected_indexes : List (Option ℕ)
  pub table_api : Option ℕ
  pub table_filtered : Bool
  pub tags_by_id : NumberMap
  pub has_checkpoints : Bool
  pub has_experiments : Bool

pub data Action (R : Type 0) : Type 0 where
  set_selected_indexes set_selected_ids : List ℕ → Action R
  set_hover_info : HoverInfo → Action R
  set_table_api : Option ℕ → Action R
  toggle_dimensions_to_filtered update_filtered : Action R
  get_runs_success : List R → List Field → NumberMap → Action R
  get_checkpoints_success : ℕ → Action R
  create_tag_success : ℕ → ℕ → Action R
  get_tags_success : List (ℕ × ℕ) → Action R
  update_run_success : R → Action R
  change_filter_model : Option FilterModel → Action R

abbrev pub find_each : NumberMap → List ℕ → List (Option ℕ)
find_each m ks = map (λ k. lookup k m) ks

abbrev pub filter : {A : Type 0} → (A → Bool) → List A → List A
filter p [] = []
filter p (x ∷ xs) = let rest = filter p xs in if p x then x ∷ rest else rest

abbrev pub is_truthy : Value → Bool
is_truthy undefined = false
is_truthy null = false
is_truthy (str s) = not (str_eq s "")
is_truthy v = true

-- `run.model && run.model.type === value`.
abbrev pub has_type : Option Value → Value → Bool
has_type none value = false
has_type (some t) value = same t value

module _ {R : Type 0} where
  unfoldable pub initial_slice : Slice R
  initial_slice = record {
    all_runs = none;
    checkpoints_by_run_id = none;
    defined_fields = [];
    dimensions = none;
    filter_model = none;
    hover_info = record { run_index = none; run_id = none; checkpoint_index = none };
    id_index_map = [];
    index_id_map = [];
    runs = none;
    runs_by_id = [];
    selected_ids = [];
    selected_indexes = [];
    table_api = none;
    table_filtered = false;
    tags_by_id = [];
    has_checkpoints = false;
    has_experiments = false;
  }

  unfoldable pub hover : HoverInfo → Slice R → HoverInfo
  hover info state = elim info.run_id [
    | some id ↦ record info { run_index = lookup id state.id_index_map }
    | none ↦ elim info.run_index [
      | some index ↦ record info { run_id = lookup index state.index_id_map }
      | none ↦ info
    ]
  ]

  unfoldable pub select_indexes : List ℕ → Slice R → Slice R
  select_indexes indexes state = record state {
    selected_indexes = map some indexes;
    selected_ids = find_each state.index_id_map indexes;
  }

  unfoldable pub select_ids : List ℕ → Slice R → Slice R
  select_ids ids state = record state {
    selected_ids = map some ids;
    selected_indexes = find_each state.id_index_map ids;
  }

unfoldable pub index_tags : List (ℕ × ℕ) → NumberMap → NumberMap
index_tags [] by_id = by_id
index_tags ((id, tag) ∷ tags) by_id = index_tags tags (put id tag by_id)

module _ {R : Type 0} (services : Services R) (keys : RunKeys R) where
  unfoldable pub index_runs : List R → List (ℕ × R) → List (ℕ × R)
  index_runs [] by_id = by_id
  index_runs (run ∷ runs) by_id = index_runs runs (put (services.id_of run) run by_id)

  -- The dimensions and the two maps of the state for these runs.
  unfoldable pub with_dimensions : List R → Slice R → Option (Slice R)
  with_dimensions runs state =
      elim (create_dimensions_from_runs services state.defined_fields runs) [
        | none ↦ none
        | some created ↦ some (record state {
          dimensions = some created.dimensions;
          id_index_map = created.id_index_map;
          index_id_map = created.index_id_map;
        })
      ]

  unfoldable pub toggle : List R → Slice R → Option (Slice R)
  toggle rows state =
      let toggled = record state { table_filtered = not state.table_filtered } in
      if is_some state.table_api
      then with_dimensions (if toggled.table_filtered then rows else get_or state.runs []) toggled
      else some toggled

  unfoldable pub update : List R → Slice R → Option (Slice R)
  update rows state =
      if state.table_filtered
      then (if is_some state.table_api then with_dimensions rows state else none)
      else some state

  unfoldable pub receive_runs : List R → List Field → NumberMap → Slice R → Slice R
  unfolding index_runs
  receive_runs runs defined_fields tags state = record state {
    runs_by_id = index_runs runs [];
    tags_by_id = tags;
    defined_fields = defined_fields;
    all_runs = some runs;
    has_checkpoints = any (λ run. ltb 0 (keys.checkpoint_count run)) runs;
    has_experiments = any (λ run. is_truthy (keys.experiment run)) runs;
  }

  -- The state's `runs` for a filter; the outer none is the error thrown for another key.
  unfoldable pub filtered_runs : Option FilterModel → Option (List R) → Option (Option (List R))
  filtered_runs none all_runs = some all_runs
  filtered_runs (some filter_model) all_runs = elim filter_model.key [
    | none ↦ some all_runs
    | some key ↦
        if str_eq key ""
        then some all_runs
        else if str_eq key "model.type"
        then some (
            some (
              filter (λ run. has_type (keys.model_type run) filter_model.value)
                (get_or all_runs [])))
        else if str_eq key "experiment"
        then some (
            some
              (filter (λ run. same (keys.experiment run) filter_model.value) (get_or all_runs [])))
        else none
  ]

  unfoldable pub change_filter : Option FilterModel → Slice R → Option (Slice R)
  unfolding filtered_runs
  change_filter payload state = elim (filtered_runs payload state.all_runs) [
    | none ↦ none
    | some runs ↦ elim (with_dimensions (get_or runs []) (record state { runs = runs })) [
      | none ↦ none
      | some next ↦ some (record next { filter_model = payload })
    ]
  ]

  unfoldable pub reduce : List R → Slice R → Action R → Option (Slice R)
  unfolding hover index_tags receive_runs toggle update change_filter select_indexes select_ids
  reduce rows state (set_selected_indexes indexes) = some (select_indexes indexes state)
  reduce rows state (set_selected_ids ids) = some (select_ids ids state)
  reduce rows state (set_hover_info info) = some (record state { hover_info = hover info state })
  reduce rows state (set_table_api api) = some (record state { table_api = api })
  reduce rows state toggle_dimensions_to_filtered = toggle rows state
  reduce rows state update_filtered = update rows state
  reduce rows state (get_runs_success runs fields tags) = some (receive_runs runs fields tags state)
  reduce rows state (get_checkpoints_success checkpoints) =
      some (record state { checkpoints_by_run_id = some checkpoints })
  reduce rows state (create_tag_success id tag) =
      some (record state { tags_by_id = put id tag state.tags_by_id })
  reduce rows state (get_tags_success tags) =
      some (record state { tags_by_id = index_tags tags [] })
  reduce rows state (update_run_success run) =
      some (record state { runs_by_id = put (services.id_of run) run state.runs_by_id })
  reduce rows state (change_filter_model payload) = change_filter payload state
