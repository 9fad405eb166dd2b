-- ===== src/Project/Dashboards/Widgets.antt =====
-- web/js/pages/project/analysis/state/dashboards_slice.js: adding widgets.
use sigopt_server.Base.{
  ℕ, zero, suc, ◌≡◌, ◌≢◌, ◌↔◌, ◌∙◌, refl, ap, sym, subst, true, Option, none, some, inl, inr,
  Bool-cases, List, [], ◌∷◌, ==_iff, arith, if◌then◌else◌,
}
use sigopt_server.Project.Dashboards.{
  WidgetId, undefined, nan, number, same_id, plus_one, Widget, Widgets, Dashboard, Dashboards,
  widget_at, set_widget, nth, set_nth, current, with_widgets, move_down, move_all_down, placed,
  add_new_widget,
}

same_id_iff : (i j : WidgetId) → (same_id i j ≡ true) ↔ (i ≡ j)
unfolding same_id
same_id_iff undefined undefined = ground arith
same_id_iff undefined nan = ground arith
same_id_iff undefined (number n) = ground arith
same_id_iff nan undefined = ground arith
same_id_iff nan nan = ground arith
same_id_iff nan (number n) = ground arith
same_id_iff (number m) undefined = ground arith
same_id_iff (number m) nan = ground arith
same_id_iff (number m) (number n) = ground (arith, ==_iff m n)

nth-set_nth :
    {A : Type 0} (n : ℕ) (x y : A) (xs : List A)
    → nth n xs ≡ some x
    → nth n (set_nth n y xs) ≡ some y
nth-set_nth n x y [] e = cc
nth-set_nth zero x y (z ∷ xs) e = refl
nth-set_nth (suc n) x y (z ∷ xs) e = nth-set_nth n x y xs e

nth-set_nth_other :
    {A : Type 0} (n m : ℕ) (y : A) (xs : List A) → m ≢ n → nth m (set_nth n y xs) ≡ nth m xs
nth-set_nth_other n m y [] h = refl
nth-set_nth_other zero zero y (z ∷ xs) h = absurd (h refl)
nth-set_nth_other zero (suc m) y (z ∷ xs) h = refl
nth-set_nth_other (suc n) zero y (z ∷ xs) h = refl
nth-set_nth_other (suc n) (suc m) y (z ∷ xs) h = nth-set_nth_other n m y xs (λ e. h (ap suc e))

set_nth-set_nth :
    {A : Type 0} (n : ℕ) (x y : A) (xs : List A) → set_nth n y (set_nth n x xs) ≡ set_nth n y xs
set_nth-set_nth n x y [] = refl
set_nth-set_nth zero x y (z ∷ xs) = refl
set_nth-set_nth (suc n) x y (z ∷ xs) = ap (z ∷◌) (set_nth-set_nth n x y xs)

abbrev pub moved : {W : Type 0} → Option (Widget W) → Option (Widget W)
moved none = none
moved (some widget) = some (move_down widget)

module _ {W : Type 0} where
  widget_at-set_widget :
      (i j : WidgetId) (w : Widget W) (ws : Widgets W)
      → widget_at j (set_widget i w ws) ≡ (if same_id i j then some w else widget_at j ws)
  unfolding widget_at set_widget
  widget_at-set_widget i j w [] = refl
  widget_at-set_widget i j w ((k, v) ∷ ws) =
      ground
        (arith, same_id_iff k i, same_id_iff k j, same_id_iff i j, widget_at-set_widget i j w ws)

  widget_at-move_all_down :
      (i : WidgetId) (ws : Widgets W) → widget_at i (move_all_down ws) ≡ moved (widget_at i ws)
  unfolding widget_at
  widget_at-move_all_down i [] = refl
  widget_at-move_all_down i ((k, v) ∷ ws) = ground (arith, widget_at-move_all_down i ws)

  -- The widgets after an addition.
  abbrev pub added : Widget W → Dashboards W → Widgets W → Widgets W
  added payload s ws = set_widget s.next_item_id (placed payload) (move_all_down ws)

  current-nth :
      (s : Dashboards W) (k : ℕ) (d : Dashboard W)
      → s.current_dashboard_id ≡ some k
      → nth k s.dashboards ≡ some d
      → current s ≡ some (k, d)
  unfolding current
  current-nth s k d c e = rw (current, c) (rw e refl)

  add_new_widget-eq :
      (payload : Widget W) (s : Dashboards W) (k : ℕ) (d : Dashboard W)
      → s.current_dashboard_id ≡ some k
      → nth k s.dashboards ≡ some d
      → add_new_widget payload s
        ≡ some (record s {
          dashboards = set_nth k (record d { widgets = added payload s d.widgets }) s.dashboards;
          next_item_id = plus_one s.next_item_id;
        })
  unfolding add_new_widget with_widgets
  add_new_widget-eq payload s k d c e =
      rw (add_new_widget, with_widgets, current-nth s k d c e) refl

  -- With a current dashboard, an addition succeeds. In that dashboard the new widget stands under
  -- `nextItemId`, in the top left corner, in place of any widget with this id; the other widgets
  -- stay, moved down if they were at the top. The other dashboards do not change.
  pub add_new_widget-adds :
      (payload : Widget W) (s : Dashboards W) (k : ℕ) (d : Dashboard W)
      → s.current_dashboard_id ≡ some k
      → nth k s.dashboards ≡ some d
      → (s' : Dashboards W) × (d' : Dashboard W) × (add_new_widget payload s ≡ some s')
        × (current s' ≡ some (k, d'))
        × ((i : WidgetId)
            → widget_at i d'.widgets ≡ (
                if same_id s.next_item_id i
                then some (placed payload)
                else moved (widget_at i d.widgets)))
        × ((j : ℕ) → j ≢ k → nth j s'.dashboards ≡ nth j s.dashboards)
  add_new_widget-adds payload s k d c e =
      let d' : Dashboard W = record d { widgets = added payload s d.widgets } in
      let s' : Dashboards W = record s {
        dashboards = set_nth k d' s.dashboards;
        next_item_id = plus_one s.next_item_id;
      } in
      (
        s',
        d',
        add_new_widget-eq payload s k d c e,
        current-nth s' k d' c (nth-set_nth k d d' s.dashboards e),
        (λ i.
            widget_at-set_widget s.next_item_id i (placed payload) (move_all_down d.widgets)
            ∙ rw (widget_at-move_all_down i d.widgets) refl),
        (λ j ne. nth-set_nth_other k j d' s.dashboards ne),
      )

  -- One addition after another.
  pub add_each : List (Widget W) → Dashboards W → Option (Dashboards W)
  unfolding add_new_widget
  add_each [] s = some s
  add_each (payload ∷ payloads) s = elim (add_new_widget payload s) [
    | none ↦ none
    | some next ↦ add_each payloads next
  ]

  add_each-cons :
      (payload : Widget W) (s t : Dashboards W) (payloads : List (Widget W))
      → add_new_widget payload s ≡ some t
      → add_each (payload ∷ payloads) s ≡ add_each payloads t
  unfolding add_each
  add_each-cons payload s t payloads e = rw (add_each, e) refl

  overwritten :
      (i : WidgetId) (a a' b : Widget W) (ws : Widgets W)
      → set_widget i b (move_all_down (set_widget i a ws))
        ≡ set_widget i b (move_all_down (set_widget i a' ws))
  unfolding set_widget
  overwritten i a a' b [] = rw ((same_id_iff i i).1 refl) refl
  overwritten i a a' b ((k, v) ∷ ws) = elim (Bool-cases (same_id k i)) [
    | inl e ↦ rw e (rw ((same_id_iff i i).1 refl) refl)
    | inr e ↦ rw e (rw e (ap ((k, move_down v) ∷◌) (overwritten i a a' b ws)))
  ]

  -- The state after an addition.
  abbrev pub next_state : Widget W → Dashboards W → ℕ → Dashboard W → Dashboards W
  next_state payload s k d = record s {
    dashboards = set_nth k (record d { widgets = added payload s d.widgets }) s.dashboards;
    next_item_id = plus_one s.next_item_id;
  }

  add_two :
      (a b : Widget W) (s : Dashboards W) (k : ℕ) (d : Dashboard W)
      → s.current_dashboard_id ≡ some k
      → nth k s.dashboards ≡ some d
      → add_each (a ∷ b ∷ []) s
        ≡ some (next_state b (next_state a s k d) k (record d { widgets = added a s d.widgets }))
  unfolding add_each
  add_two a b s k d c e =
      let d' : Dashboard W = record d { widgets = added a s d.widgets } in
      add_each-cons a s (next_state a s k d) (b ∷ []) (add_new_widget-eq a s k d c e)
      ∙ add_each-cons b (next_state a s k d) (next_state b (next_state a s k d) k d') []
          (add_new_widget-eq b (next_state a s k d) k d' c (nth-set_nth k d d' s.dashboards e))

  second_lost :
      (a a' b : Widget W) (s : Dashboards W) (k : ℕ) (d : Dashboard W)
      → s.next_item_id ≡ nan
      → next_state b (next_state a s k d) k (record d { widgets = added a s d.widgets })
        ≡ next_state b (next_state a' s k d) k (record d { widgets = added a' s d.widgets })
  unfolding plus_one
  second_lost a a' b s k d u =
      let same_widgets =
        subst
          (λ j.
            set_widget j (placed b) (move_all_down (added a s d.widgets))
            ≡ set_widget j (placed b) (move_all_down (added a' s d.widgets)))
          (let fixed : s.next_item_id ≡ plus_one s.next_item_id = rw u refl in fixed)
          (overwritten s.next_item_id (placed a) (placed a') (placed b)
            (move_all_down d.widgets)) in
      ap
        (λ ds.
          let r : Dashboards W = record s {
            dashboards = ds;
            next_item_id = plus_one (plus_one s.next_item_id);
          } in
          r)
        (set_nth-set_nth k _ _ s.dashboards
          ∙ ap (λ ws. set_nth k (let r : Dashboard W = record d { widgets = ws } in r) s.dashboards)
              same_widgets
          ∙ sym (set_nth-set_nth k _ _ s.dashboards))

  -- From the initial `nextItemId`, which is undefined, the second widget added leaves no trace once
  -- a third is added: both get the id `NaN`.
  pub add_each-second_lost :
      (first second second' third : Widget W) (s : Dashboards W) (k : ℕ) (d : Dashboard W)
      → s.current_dashboard_id ≡ some k
      → nth k s.dashboards ≡ some d
      → s.next_item_id ≡ undefined
      → add_each (first ∷ second ∷ third ∷ []) s ≡ add_each (first ∷ second' ∷ third ∷ []) s
  unfolding add_each plus_one
  add_each-second_lost first second second' third s k d c e u =
      let d' : Dashboard W = record d { widgets = added first s d.widgets } in
      let t = next_state first s k d in
      let there = nth-set_nth k d d' s.dashboards e in
      add_each-cons first s t (second ∷ third ∷ []) (add_new_widget-eq first s k d c e)
      ∙ add_two second third t k d' c there
      ∙ ap some (second_lost second second' third t k d' (rw u refl))
      ∙ sym (add_two second' third t k d' c there)
      ∙ sym (add_each-cons first s t (second' ∷ third ∷ []) (add_new_widget-eq first s k d c e))
