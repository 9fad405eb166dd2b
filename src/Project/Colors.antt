-- ===== src/Project/Colors.antt =====
-- web/js/pages/project/analysis/lib/color_dimension.js: the colors of the points of a plot.
-- None is an exception, or null where the source has null.
pub mod Legend
mod Tests
use Prim.Native.String.{String}
use text.Mathlib.Text.{◌==◌ as str_eq}
use sigopt_server.Base.{
  ℕ, zero, suc, ◌%◌, ◌==◌, Bool, true, false, Option, none, some, is_some, List, [], ◌∷◌, ◌++◌,
  length, any, find, ℤ, pos, negsuc, if◌then◌else◌,
}
use sigopt_server.Project.Gradients.{
  GradientType, fixed, smooth, ColorStep, Gradient, get_gradient_safely,
}
use sigopt_server.Project.Dimensions.{
  Value, undefined, null, str, contains, index_of_from, Dimension,
}
use sigopt_server.Project.Dimensions.Create.Ticks.{nth}

pub record ColorState : Type 0 where
  pub key : Option String
  pub gradient_type : Option GradientType
  pub gradient_key : Option String

unfoldable pub is_valid_gradient : Option GradientType → Option String → Bool
unfolding get_gradient_safely
is_valid_gradient none none = true
is_valid_gradient none (some key) = false
is_valid_gradient (some t) none = false
is_valid_gradient (some t) (some key) = is_some (get_gradient_safely t key)

unfoldable pub create_color_state :
    Option String → Option GradientType → Option String → Option ColorState
unfolding is_valid_gradient
create_color_state key t gradient_key =
    if is_valid_gradient t gradient_key
    then some (record { key = key; gradient_type = t; gradient_key = gradient_key })
    else none

unfoldable pub create_blank_color_state : Option ColorState
unfolding create_color_state
create_blank_color_state = create_color_state none none none

abbrev pub selected_from : ℕ → ℕ → List ℕ → List ℕ
selected_from i zero selected = []
selected_from i (suc n) selected =
    (if any (λ j. j == i) selected then 1 else 0) ∷ selected_from (suc i) n selected

pub record SelectColors : Type 0 where
  pub color : List ℕ
  pub colorscale : List ColorStep

-- The color of each point, a position in the scale.
unfoldable pub create_color_dimension_with_select : ℕ → List ℕ → SelectColors
create_color_dimension_with_select total_points selected = record {
  color = selected_from 0 total_points selected;
  colorscale = (0, "#6699ff") ∷ (100, "#ffca38") ∷ [];
}

pub record SmoothColors : Type 0 where
  pub color : List Value
  pub colorscale : Option Gradient

-- The scale is the gradient itself, and not its steps; it is undefined for an unknown key.
unfoldable pub create_color_dimension_smooth_gradient : Dimension → String → SmoothColors
unfolding get_gradient_safely
create_color_dimension_smooth_gradient dim key = record {
  color = dim.values;
  colorscale = get_gradient_safely smooth key;
}

pub record LegendItem : Type 0 where
  pub color : String
  pub value : Value

pub record FixedColors : Type 0 where
  pub color : List ℕ
  pub colorscale : List ColorStep
  pub title : String
  pub items : List LegendItem

-- `_.unique`, onto what is found already.
abbrev pub unique_onto : List Value → List Value → List Value
unique_onto result [] = result
unique_onto result (v ∷ vs) =
    if contains result v then unique_onto result vs else unique_onto (result ++ v ∷ []) vs

-- `colorscale[index % colorscale.length]`.
abbrev pub step_at : List ColorStep → ℤ → Option ColorStep
step_at steps (pos k) = nth (k % length steps) steps
step_at steps (negsuc k) = none

abbrev pub step_of : List ColorStep → List Value → Value → Option ColorStep
step_of steps unique_vals v = step_at steps (index_of_from 0 unique_vals v)

abbrev pub value_shown : Value → Value
value_shown undefined = str "None"
value_shown null = str "None"
value_shown v = v

abbrev pub onto : {B : Type 0} → Option B → Option (List B) → Option (List B)
onto none found = none
onto (some b) none = none
onto (some b) (some bs) = some (b ∷ bs)

-- `_.map` of what may throw.
abbrev pub map_each : {A : Type 0} {B : Type 0} → (A → Option B) → List A → Option (List B)
map_each f [] = some []
map_each f (a ∷ rest) = onto (f a) (map_each f rest)

abbrev pub position : Option ColorStep → Option ℕ
position none = none
position (some (at, hue)) = some at

abbrev pub legend_item : Value → Option ColorStep → Option LegendItem
legend_item v none = none
legend_item v (some (at, hue)) = some (record { color = hue; value = value_shown v })

abbrev pub fixed_colors :
    Dimension → List ColorStep → Option (List ℕ) → Option (List LegendItem) → Option FixedColors
fixed_colors dim steps none items = none
fixed_colors dim steps (some color) none = none
fixed_colors dim steps (some color) (some items) =
    some (record { color = color; colorscale = steps; title = dim.display_name; items = items })

abbrev pub colored : Dimension → List ColorStep → Option FixedColors
colored dim steps =
    let unique_vals = unique_onto [] dim.values in
    fixed_colors dim steps (map_each (λ v. position (step_of steps unique_vals v)) dim.values)
      (map_each (λ v. legend_item v (step_of steps unique_vals v)) unique_vals)

abbrev pub colored_by : Dimension → Option Gradient → Option FixedColors
colored_by dim none = none
colored_by dim (some g) = colored dim g.steps

unfoldable pub create_color_dimension_fixed_gradient : Dimension → String → Option FixedColors
unfolding get_gradient_safely
create_color_dimension_fixed_gradient dim key = colored_by dim (get_gradient_safely fixed key)

pub data ColorDimension : Type 0 where
  of_fixed : FixedColors → ColorDimension
  of_smooth : SmoothColors → ColorDimension

abbrev as_fixed : Option FixedColors → Option ColorDimension
as_fixed none = none
as_fixed (some colors) = some (of_fixed colors)

-- `getDimension`.
abbrev pub get_dimension : List (String × Dimension) → String → Option Dimension
get_dimension [] key = none
get_dimension ((k, d) ∷ dims) key = if str_eq k key then some d else get_dimension dims key

-- `GRADIENTS[type][null]` is undefined.
abbrev pub of_gradient :
    Option Dimension → Option GradientType → Option String → Option ColorDimension
of_gradient none t key = none
of_gradient (some dim) (some fixed) none = none
of_gradient (some dim) (some fixed) (some key) =
    as_fixed (create_color_dimension_fixed_gradient dim key)
of_gradient (some dim) (some smooth) none =
    some (of_smooth (record { color = dim.values; colorscale = none }))
of_gradient (some dim) (some smooth) (some key) =
    some (of_smooth (create_color_dimension_smooth_gradient dim key))
of_gradient (some dim) none key = none

-- A null or empty key throws.
abbrev dimension_of : List (String × Dimension) → Option String → Option Dimension
dimension_of dims none = none
dimension_of dims (some key) = if str_eq key "" then none else get_dimension dims key

unfoldable pub create_color_dimension_gradient :
    List (String × Dimension) → Option ColorState → Option ColorDimension
create_color_dimension_gradient dims none = none
create_color_dimension_gradient dims (some state) =
    of_gradient (dimension_of dims state.key) state.gradient_type state.gradient_key
