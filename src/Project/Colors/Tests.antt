-- ===== src/Project/Colors/Tests.antt =====
-- web/js/pages/project/analysis/lib/color_dimension.js: a column of four points, and the gradients.
use sigopt_server.Base.{◌≡◌, refl, arith, none, some, [], ◌∷◌}
use sigopt_server.Project.Colors.{
  FixedColors, is_valid_gradient, create_color_state, create_color_dimension_with_select,
  create_color_dimension_fixed_gradient,
}
use sigopt_server.Project.Gradients.{fixed, color_blind_ten, get_gradient_safely}
use sigopt_server.Project.Colors.Legend.{Agrees, create_color_dimension_fixed_gradient-Agrees}
use sigopt_server.Project.Dimensions.{Dimension, number, null, other, categorical}

abbrev depth : Dimension
depth = record {
  display_name = "Depth";
  key = "depth";
  value_type = categorical;
  group_type = other;
  values = number 4 ∷ null ∷ number 4 ∷ number 6 ∷ [];
  count = 3;
  categorical_values = none;
  ticks = none;
}

create_color_dimension_fixed_gradient-Agrees_example :
    (colors : FixedColors) × (create_color_dimension_fixed_gradient depth "COLOR_BLIND_TEN"
      ≡ some colors)
    × Agrees depth color_blind_ten.steps colors
unfolding get_gradient_safely
create_color_dimension_fixed_gradient-Agrees_example =
    create_color_dimension_fixed_gradient-Agrees depth "COLOR_BLIND_TEN" color_blind_ten refl
      (omega arith)

-- An unknown key does not fall back to the default gradient.
unknown_gradient : create_color_dimension_fixed_gradient depth "SMOOTH" ≡ none
unfolding create_color_dimension_fixed_gradient get_gradient_safely
unknown_gradient = refl

unknown_gradient_state : create_color_state (some "depth") (some fixed) (some "SMOOTH") ≡ none
unfolding create_color_state is_valid_gradient get_gradient_safely
unknown_gradient_state = refl

selected_points : (create_color_dimension_with_select 3 (0 ∷ 2 ∷ [])).color ≡ 1 ∷ 0 ∷ 1 ∷ []
unfolding create_color_dimension_with_select
selected_points = refl
