-- ===== src/Project/Dashboards.antt =====
-- web/js/pages/project/analysis/state/dashboards_slice.js: the reducers of the dashboards, each to
-- the next state, or none where it throws. The builder of a dashboard and the update of a widget
-- are functions that the actions bring. A widget's `y` is counted in halves, so 0.5 is 1; the
-- other numbers of a layout are natural. The keys of `widgets` are numbers, `undefined` or `NaN`.
pub mod Widgets
mod Tests
use sigopt_server.Base.{
  ℕ, zero, suc, ◌+◌, max, Bool, true, false, not, ◌&&◌, Option, none, some, is_some, List, [], ◌∷◌,
  ◌++◌, map, ◌==◌, if◌then◌else◌,
}

pub data WidgetId : Type 0 where
  undefined nan : WidgetId
  number : ℕ → WidgetId

unfoldable pub same_id : WidgetId → WidgetId → Bool
same_id undefined undefined = true
same_id nan nan = true
same_id (number m) (number n) = m == n
same_id i j = false

-- `id + 1`.
pub plus_one : WidgetId → WidgetId
plus_one undefined = nan
plus_one nan = nan
plus_one (number n) = number (suc n)

pub record Layout : Type 0 where
  pub x : ℕ
  pub y : ℕ
  pub w : ℕ
  pub h : ℕ
  pub min_w : ℕ
  pub min_h : ℕ

-- `W` is the rest of a widget.
pub record Widget (W : Type 0) : Type 0 where
  pub layout : Layout
  pub content : W

abbrev pub Widgets : Type 0 → Type 0
Widgets W = List (WidgetId × Widget W)

pub record Dashboard (W : Type 0) : Type 0 where
  pub widgets : Widgets W
  pub has_builder : Bool

-- `nextItemId` is undefined at first: `dashboardsInitialState` does not have it.
pub record Dashboards (W : Type 0) : Type 0 where
  pub dashboards : List (Dashboard W)
  pub current_dashboard_id : Option ℕ
  pub next_item_id : WidgetId

abbrev pub nth : {A : Type 0} → ℕ → List A → Option A
nth n [] = none
nth zero (x ∷ xs) = some x
nth (suc n) (x ∷ xs) = nth n xs

abbrev pub set_nth : {A : Type 0} → ℕ → A → List A → List A
set_nth n y [] = []
set_nth zero y (x ∷ xs) = y ∷ xs
set_nth (suc n) y (x ∷ xs) = x ∷ set_nth n y xs

module _ {W : Type 0} where
  pub dashboards_initial_state : Dashboards W
  dashboards_initial_state = record {
    dashboards = [];
    current_dashboard_id = none;
    next_item_id = undefined;
  }

  unfoldable pub widget_at : WidgetId → Widgets W → Option (Widget W)
  widget_at id [] = none
  widget_at id ((i, widget) ∷ widgets) = if same_id i id then some widget else widget_at id widgets

  unfoldable pub set_widget : WidgetId → Widget W → Widgets W → Widgets W
  set_widget id widget [] = (id, widget) ∷ []
  set_widget id widget ((i, other) ∷ widgets) =
      if same_id i id then (id, widget) ∷ widgets else (i, other) ∷ set_widget id widget widgets

  pub remove_widget : WidgetId → Widgets W → Widgets W
  remove_widget id [] = []
  remove_widget id ((i, other) ∷ widgets) =
      let rest = remove_widget id widgets in if same_id i id then rest else (i, other) ∷ rest

  -- `state.dashboards[state.currentDashboardId]`.
  pub current : Dashboards W → Option (ℕ × Dashboard W)
  current s = elim s.current_dashboard_id [
    | none ↦ none
    | some id ↦ elim (nth id s.dashboards) [ none ↦ none | some dashboard ↦ some (id, dashboard) ]
  ]

  -- A change of the current dashboard's widgets; it throws if there is no current dashboard.
  pub with_widgets : (Widgets W → Option (Widgets W)) → Dashboards W → Option (Dashboards W)
  unfolding current
  with_widgets change s = elim (current s) [
    | none ↦ none
    | some (id, dashboard) ↦ elim (change dashboard.widgets) [
      | none ↦ none
      | some widgets ↦ some (record s {
        dashboards = set_nth id (record dashboard { widgets = widgets }) s.dashboards;
      })
    ]
  ]

  pub move_down : Widget W → Widget W
  move_down widget =
      if widget.layout.y == 0
      then record widget { layout = record widget.layout { y = 1 } }
      else widget

  abbrev pub move_all_down : Widgets W → Widgets W
  move_all_down [] = []
  move_all_down ((i, widget) ∷ widgets) = (i, move_down widget) ∷ move_all_down widgets

  pub placed : Widget W → Widget W
  placed payload = record payload {
    layout = record payload.layout {
      x = 0;
      y = 0;
      w = max payload.layout.w payload.layout.min_w;
      h = max payload.layout.h payload.layout.min_h;
    };
  }

  unfoldable pub add_new_widget : Widget W → Dashboards W → Option (Dashboards W)
  unfolding with_widgets set_widget placed plus_one move_down
  add_new_widget payload s =
      elim (with_widgets
        (λ widgets. some (set_widget s.next_item_id (placed payload) (move_all_down widgets))) s) [
          | none ↦ none
          | some next ↦ some (record next { next_item_id = plus_one s.next_item_id })
        ]

  -- A layout of a widget that is not there throws.
  pub lay_out : List (WidgetId × Layout) → Widgets W → Option (Widgets W)
  unfolding widget_at set_widget
  lay_out [] widgets = some widgets
  lay_out ((id, layout) ∷ layouts) widgets = elim (widget_at id widgets) [
    | none ↦ none
    | some widget ↦ lay_out layouts (set_widget id (record widget { layout = layout }) widgets)
  ]

  pub update_layouts : List (WidgetId × Layout) → Dashboards W → Option (Dashboards W)
  unfolding with_widgets lay_out
  update_layouts payload s = with_widgets (lay_out payload) s

  -- `updateFunc`, of a widget that is there.
  pub update_widget : WidgetId → (Widget W → Widget W) → Dashboards W → Option (Dashboards W)
  unfolding with_widgets widget_at set_widget
  update_widget id update_func s =
      with_widgets
        (λ widgets. elim (widget_at id widgets) [
          | none ↦ none
          | some widget ↦ some (set_widget id (update_func widget) widgets)
        ])
        s

  pub replace_widget : WidgetId → Widget W → Dashboards W → Option (Dashboards W)
  unfolding with_widgets widget_at set_widget
  replace_widget id widget_data s =
      with_widgets
        (λ widgets. elim (widget_at id widgets) [
          | none ↦ none
          | some old ↦ some (
              set_widget id
                (record widget_data {
                  layout = record widget_data.layout { x = old.layout.x; y = old.layout.y };
                })
                widgets)
        ])
        s

  pub delete_widget : WidgetId → Dashboards W → Option (Dashboards W)
  unfolding with_widgets remove_widget
  delete_widget id s = with_widgets (λ widgets. some (remove_widget id widgets)) s

  pub change_dashboard : ℕ → Dashboards W → Dashboards W
  change_dashboard id s = record s { current_dashboard_id = some id }

  -- `builder` is that of the current dashboard, given the runs and the dimensions.
  pub build_dashboard : ℕ → (Dashboard W → Dashboard W) → Dashboards W → Option (Dashboards W)
  unfolding current
  build_dashboard dashboard_id builder s = elim (current s) [
    | none ↦ if is_current s.current_dashboard_id dashboard_id then none else some s
    | some (id, dashboard) ↦ some (
        if id == dashboard_id && dashboard.has_builder
        then record s { dashboards = set_nth id (builder dashboard) s.dashboards }
        else s)
  ]
    where
      is_current : Option ℕ → ℕ → Bool
      is_current none id = false
      is_current (some i) id = i == id
