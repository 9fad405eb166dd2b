-- ===== src/Project/Slice/Consistent.antt =====
-- web/js/pages/project/state/dimensions_slice.js: ids and indexes of the selected runs agree.
use sigopt_server.Base.{
  ℕ, ◌≡◌, ◌↔◌, refl, Option, none, some, is_some, get_or, List, [], ◌∷◌, map, arith, Option-cases,
  Bool-cases, inl, inr, subst,
}
use sigopt_server.Project.Dimensions.{lookup}
use sigopt_server.Project.Dimensions.Maps.{index_ids-invert}
use sigopt_server.Project.Dimensions.Create.{
  Services, fill_tick_vals, typed_dimensions, create_dimensions_from_runs,
}
use sigopt_server.Project.Slice.{
  Slice, FilterModel, Action, set_selected_indexes, set_selected_ids, set_hover_info, set_table_api,
  toggle_dimensions_to_filtered, update_filtered, get_runs_success, get_checkpoints_success,
  create_tag_success, get_tags_success, update_run_success, change_filter_model, RunKeys,
  initial_slice, with_dimensions, toggle, update, filtered_runs, change_filter, receive_runs,
  select_ids, select_indexes, reduce, find_each,
}

-- An index is the index of an id exactly if the id is the id of the index.
abbrev pub IsConsistent : {R : Type 0} → Slice R → Type 0
IsConsistent s = (k v : ℕ) → (lookup v s.index_id_map ≡ some k) ↔ (lookup k s.id_index_map ≡ some v)

-- A state, or an error.
abbrev pub OnSome : {A : Type 0} → (A → Type 0) → Option A → Type 0
OnSome P none = Unit
OnSome P (some a) = P a

module _ {R : Type 0} (services : Services R) (keys : RunKeys R) where
  with_dimensions-IsConsistent :
      (runs : List R) (s : Slice R) → OnSome IsConsistent (with_dimensions services keys runs s)
  unfolding with_dimensions create_dimensions_from_runs
  with_dimensions-IsConsistent runs s =
      elim (Option-cases
        (fill_tick_vals services (typed_dimensions services s.defined_fields runs))) [
          | inl e ↦ rw (e, with_dimensions, create_dimensions_from_runs, OnSome) tt
          | inr (dimensions, e) ↦
              rw (e, with_dimensions, create_dimensions_from_runs, OnSome)
                (index_ids-invert services runs)
        ]

  -- The next state, if the reducer does not throw, and the same state if it does.
  unfoldable pub after : List R → Slice R → Action R → Slice R
  after rows s action = get_or (reduce services keys rows s action) s

  OnSome-get_or :
      (o : Option (Slice R)) (s : Slice R)
      → IsConsistent s
      → OnSome IsConsistent o
      → IsConsistent (get_or o s)
  OnSome-get_or none s c h = c
  OnSome-get_or (some t) s c h = h

  change_filter-IsConsistent :
      (payload : Option FilterModel) (s : Slice R)
      → OnSome IsConsistent (change_filter services keys payload s)
  unfolding change_filter
  change_filter-IsConsistent payload s =
      elim (Option-cases (filtered_runs services keys payload s.all_runs)) [
        | inl e ↦ rw (e, change_filter, OnSome) tt
        | inr (runs, e) ↦
            rw (e, change_filter, OnSome)
              (elim (Option-cases
                (with_dimensions services keys (get_or runs []) (record s { runs = runs }))) [
                  | inl f ↦ rw (f, OnSome) tt
                  | inr (next, f) ↦
                      rw (f, OnSome)
                        (subst (OnSome IsConsistent) f (
                          with_dimensions-IsConsistent (get_or runs []) (record s { runs = runs })))
                ])
      ]

  reduce-IsConsistent :
      (rows : List R) (s : Slice R) (action : Action R)
      → IsConsistent s
      → OnSome IsConsistent (reduce services keys rows s action)
  unfolding reduce toggle update select_indexes select_ids receive_runs
  reduce-IsConsistent rows s (set_selected_indexes indexes) c = c
  reduce-IsConsistent rows s (set_selected_ids ids) c = c
  reduce-IsConsistent rows s (set_hover_info info) c = c
  reduce-IsConsistent rows s (set_table_api api) c = c
  reduce-IsConsistent rows s toggle_dimensions_to_filtered c =
      elim (Bool-cases (is_some s.table_api)) [
        | inl e ↦ rw e (with_dimensions-IsConsistent _ _)
        | inr e ↦ rw e c
      ]
  reduce-IsConsistent rows s update_filtered c = elim (Bool-cases s.table_filtered) [
    | inl e ↦ elim (Bool-cases (is_some s.table_api)) [
      | inl f ↦ rw (e, f) (with_dimensions-IsConsistent _ _)
      | inr f ↦ rw (e, f) tt
    ]
    | inr e ↦ rw e c
  ]
  reduce-IsConsistent rows s (get_runs_success runs fields tags) c = c
  reduce-IsConsistent rows s (get_checkpoints_success checkpoints) c = c
  reduce-IsConsistent rows s (create_tag_success id tag) c = c
  reduce-IsConsistent rows s (get_tags_success tags) c = c
  reduce-IsConsistent rows s (update_run_success run) c = c
  reduce-IsConsistent rows s (change_filter_model payload) c = change_filter-IsConsistent payload s

  -- The states reached from `s` by actions, each with the rows that the table shows at that time.
  unfoldable pub run : List (List R × Action R) → Slice R → Slice R
  unfolding after
  run [] s = s
  run ((rows, action) ∷ actions) s = run actions (after rows s action)

  run-IsConsistent :
      (actions : List (List R × Action R)) (s : Slice R)
      → IsConsistent s
      → IsConsistent (run actions s)
  unfolding run after
  run-IsConsistent [] s c = c
  run-IsConsistent ((rows, action) ∷ actions) s c =
      run-IsConsistent actions (after rows s action)
        (OnSome-get_or _ s c (reduce-IsConsistent rows s action c))

  -- Whatever the actions so far, with runs whose ids may repeat, filters, and reducers that threw:
  -- an index is the index of an id exactly if the id is the id of the index.
  pub run-initial-IsConsistent :
      (actions : List (List R × Action R)) → IsConsistent (run actions initial_slice)
  unfolding initial_slice lookup
  run-initial-IsConsistent actions =
      run-IsConsistent actions initial_slice (λ k v. ((λ e. cc), (λ e. cc)))

  find_each-inverse :
      (s : Slice R) (indexes ids : List ℕ)
      → IsConsistent s
      → find_each s.index_id_map indexes ≡ map some ids
      → find_each s.id_index_map ids ≡ map some indexes
  find_each-inverse s [] [] c e = refl
  find_each-inverse s [] (k ∷ ids) c e = cc
  find_each-inverse s (v ∷ indexes) [] c e = cc
  find_each-inverse s (v ∷ indexes) (k ∷ ids) c e =
      ground (arith, find_each-inverse s indexes ids c, c k v)

  -- After any actions: when runs are selected by their indexes and each of them has an id, then
  -- selecting these ids instead leads to the same state, so table and plot show one selection.
  pub select_ids-select_indexes :
      (actions : List (List R × Action R)) (indexes ids : List ℕ)
      → let s = run actions initial_slice in
        (select_indexes indexes s).selected_ids ≡ map some ids
        → select_ids ids s ≡ select_indexes indexes s
  unfolding select_ids select_indexes
  select_ids-select_indexes actions indexes ids e =
      let s = run actions initial_slice in
      rw (find_each-inverse s indexes ids (run-initial-IsConsistent actions) e, e) refl
