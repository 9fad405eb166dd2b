-- ===== src/Chart/Shaded.antt =====
-- web/js/chart/thresholds.js: what the boxes shade of what the chart shows.
use sigopt_server.Base.{Bool, false, ◌&&◌, ◌||◌, Option, none, some, List, any, ℤ}
use sigopt_server.Chart.Sides.{within, Sides}
use sigopt_server.Chart.Thresholds.{line, rect, Shape, ChartLayout}
use sigopt_server.Experiment.Ui.{Experiment}

abbrev pub shades : ℤ × ℤ → Shape → Bool
shades (px, py) s = elim s.kind [
  | line ↦ false
  | rect ↦ within s.xref s.x0 s.x1 px && within s.yref s.y0 s.y1 py
]

abbrev pub any_shades : ℤ × ℤ → Option (List Shape) → Option Bool
any_shades point none = none
any_shades point (some shapes) = some (any (shades point) shapes)

abbrev pub either : Option Bool → Option Bool → Option Bool
either none q = none
either (some a) none = none
either (some a) (some b) = some (a || b)

-- Whether a shape of the layout shades the point.
abbrev pub shaded : {A : Type 0} → ℤ × ℤ → Option (ChartLayout A) → Option Bool
shaded point none = none
shaded point (some layout) = any_shades point layout.shapes
