-- ===== src/Experiment/Submission/Changes.antt =====
-- web/js/experiment/editor.js: an update sends what has changed.
use Prim.Native.String.{String}
use text.Mathlib.Text.{◌==◌ as str_eq}
use text.Mathlib.TextEquality.{eq_iff}
use sigopt_server.Base.{
  ℕ, ◌≡◌, refl, ◌∙◌, ap, Bool, true, not, false, ◌&&◌, ◌||◌, Option, none, some, is_some, List, [],
  ◌∷◌, filter, arith, Bool-cases, Option-cases, inl, inr, if◌then◌else◌,
}
use sigopt_server.Utils.Json.{
  value_at, or_undefined, Json, object, Fields, end, field, field_at, has_key, omit_fields,
}
use sigopt_server.Utils.Json.Omit.{then_omit, field_at-omit_fields}
use sigopt_server.Utils.Json.Keys.{has_key-filter}
use sigopt_server.Experiment.Model.{ExperimentInput, MetadataEntry}
use sigopt_server.Experiment.Submission.{sanitize_input}
use sigopt_server.Experiment.Submission.Sent.{
  keys_for_update, experiment_fields, metadata_fields, pick, keys_of, updated_keys, Loaded,
  data_for_update, sanitize_for_update, update_omit_keys,
}

pub field_at-pick :
    (keys : List String) (fields : Fields) (k : String)
    → field_at k (pick keys fields) ≡ (if has_key keys k then field_at k fields else none)
unfolding field_at
field_at-pick [] fields k = refl
field_at-pick (l ∷ keys) fields k = elim (Option-cases (field_at l fields)) [
  | inl missing ↦ grind (arith, eq_iff l k, field_at-pick keys fields k)
  | inr (j, found) ↦ grind (arith, eq_iff l k, field_at-pick keys fields k)
]

keys_of-field_at :
    (fields : Fields) (k : String) → has_key (keys_of fields) k ≡ is_some (field_at k fields)
unfolding field_at
keys_of-field_at end k = refl
keys_of-field_at (field l j fields) k = ground (arith, keys_of-field_at fields k)

-- The keys that an update may have.
abbrev pub sends : Loaded → String → Bool
sends loaded k =
    str_eq "name" k
    || str_eq "metadata" k
    || str_eq "parallel_bandwidth" k
    || str_eq "project" k
    || (loaded.is_ai_experiment && str_eq "budget" k)
    || (not loaded.is_ai_experiment && str_eq "observation_budget" k)
    || (loaded.can_edit_parameters && str_eq "parameters" k)
    || (loaded.can_edit_metrics && str_eq "metrics" k)

keys_for_update-sends :
    (loaded : Loaded) (k : String) → has_key (keys_for_update loaded) k ≡ sends loaded k
unfolding keys_for_update
keys_for_update-sends loaded k = ground arith

merged :
    (sent omitted : Bool) (o : Option Json)
    → (if omitted then none else then_omit update_omit_keys (if sent then o else none))
      ≡ (if sent && not omitted then then_omit update_omit_keys o else none)
merged true true o = refl
merged true false o = refl
merged false true o = refl
merged false false o = refl

-- The fields of an object after a request to change some of them.
abbrev pub applied : Fields → Fields → String → Json
applied previous patch k = elim (field_at k patch) [ none ↦ value_at k previous | some j ↦ j ]

field_at-patch :
    (is_equal : Json → Json → Bool) (experiment previous : Fields) (k : String)
    → field_at k (pick (updated_keys is_equal experiment (some previous)) experiment) ≡ (
        if is_equal (value_at k experiment) (value_at k previous)
        then none
        else field_at k experiment)
unfolding updated_keys
field_at-patch is_equal experiment previous k =
    let is_changed : String → Bool =
      λ l. not (is_equal (value_at l experiment) (value_at l previous)) in
    rw
      (
        field_at-pick (filter is_changed (keys_of experiment)) experiment k,
        has_key-filter is_changed (keys_of experiment) k,
        keys_of-field_at experiment k,
      )
      (ground arith)

module _ (as_number : String → Option ℕ) (is_equal : Json → Json → Bool)
    (is_equal_refl : (j : Json) → is_equal j j ≡ true) where
  applied-patched :
      (o patched : Option Json) (previous : Json)
      → patched ≡ (if is_equal (or_undefined o) previous then none else o)
      → (is_some o
          && not (is_equal (or_undefined o) (elim patched [ none ↦ previous | some j ↦ j ])))
        ≡ false
  applied-patched none patched previous e = refl
  applied-patched (some j) patched previous e = elim (Bool-cases (is_equal j previous)) [
    | inl same ↦ rw (e ∙ ap (λ b. if b then none else some j) same, same) refl
    | inr changed ↦ rw (e ∙ ap (λ b. if b then none else some j) changed, is_equal_refl j) refl
  ]

  -- The input at the end of the editing, as JSON, with the omitted keys.
  abbrev pub edited : ExperimentInput → List MetadataEntry → Fields
  edited input metadata =
      experiment_fields (sanitize_input as_number input) (object (metadata_fields end metadata))

  field_at-data_for_update :
      (loaded : Loaded) (input : ExperimentInput) (metadata : List MetadataEntry) (k : String)
      → field_at k (data_for_update as_number loaded input metadata) ≡ (
          if sends loaded k && not (has_key update_omit_keys k)
          then then_omit update_omit_keys (field_at k (edited input metadata))
          else none)
  unfolding data_for_update
  field_at-data_for_update loaded input metadata k =
      field_at-omit_fields update_omit_keys k
        (pick (keys_for_update loaded) (edited input metadata))
      ∙ ap (λ o. if has_key update_omit_keys k then none else then_omit update_omit_keys o)
          (field_at-pick (keys_for_update loaded) (edited input metadata) k
            ∙ ap (λ b. if b then field_at k (edited input metadata) else none)
                (keys_for_update-sends loaded k))
      ∙ merged (sends loaded k) (has_key update_omit_keys k) _

  -- An update may have the name, the metadata, the parallel bandwidth, the project and the budget of
  -- the kind of experiment, and the parameters and the metrics if they can be edited, all without the
  -- omitted keys. It has one of these keys exactly if the value differs from the one at the start
  -- of the editing, and then the edited value; so what was there at the start, with the update
  -- applied, is the edited experiment, key by key. `_.isEqual` is assumed to hold of a value and
  -- itself.
  pub sanitize_for_update-applied :
      (loaded : Loaded) (recovered : Fields) (input : ExperimentInput)
      (metadata : List MetadataEntry) (k : String)
      → let experiment = data_for_update as_number loaded input metadata in
        let previous = omit_fields update_omit_keys recovered in
        let patch = sanitize_for_update as_number is_equal loaded (some recovered) input metadata in
        (field_at k experiment ≡ (
          if sends loaded k && not (has_key update_omit_keys k)
          then then_omit update_omit_keys (field_at k (edited input metadata))
          else none))
        × (field_at k patch ≡ (
            if is_equal (value_at k experiment) (value_at k previous)
            then none
            else field_at k experiment))
        × ((is_some (field_at k experiment)
              && not (is_equal (value_at k experiment) (applied previous patch k)))
            ≡ false)
  unfolding sanitize_for_update
  sanitize_for_update-applied loaded recovered input metadata k =
      let experiment = data_for_update as_number loaded input metadata in
      let previous = omit_fields update_omit_keys recovered in
      let patched = field_at-patch is_equal experiment previous k in
      (
        field_at-data_for_update loaded input metadata k,
        patched,
        applied-patched (field_at k experiment)
            (field_at k (pick (updated_keys is_equal experiment (some previous)) experiment))
            (value_at k previous) patched,
      )
