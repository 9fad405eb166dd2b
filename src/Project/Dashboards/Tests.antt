-- ===== src/Project/Dashboards/Tests.antt =====
-- web/js/pages/project/analysis/state/dashboards_slice.js: the theorems at a dashboard of one widget.
use sigopt_server.Base.{ℕ, ◌≡◌, refl, false, some, [], ◌∷◌}
use sigopt_server.Project.Dashboards.{undefined, number, Layout, Widget, Dashboard, Dashboards}
use sigopt_server.Project.Dashboards.Widgets.{add_each, add_each-second_lost}

abbrev layout : Layout
layout = record { x = 2; y = 0; w = 1; h = 3; min_w = 2; min_h = 2 }

abbrev chart : ℕ → Widget ℕ
chart n = record { layout = layout; content = n }

abbrev dashboard : Dashboard ℕ
dashboard = record { widgets = (number 0, chart 7) ∷ []; has_builder = false }

abbrev state : Dashboards ℕ
state = record {
  dashboards = dashboard ∷ [];
  current_dashboard_id = some 0;
  next_item_id = undefined;
}

add_each-second_lost_example :
    add_each (chart 1 ∷ chart 2 ∷ chart 3 ∷ []) state
    ≡ add_each (chart 1 ∷ chart 5 ∷ chart 3 ∷ []) state
add_each-second_lost_example =
    add_each-second_lost (chart 1) (chart 2) (chart 5) (chart 3) state 0 dashboard refl refl refl
