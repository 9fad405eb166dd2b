-- ===== src/Project/Gradients.antt =====
-- web/js/pages/project/analysis/lib/color_dimension.js: the gradients. The position of a step is in
-- hundredths.
use Prim.Native.String.{String}
use text.Mathlib.Text.{◌==◌ as str_eq}
use sigopt_server.Base.{ℕ, Option, List, [], ◌∷◌, find}

pub data GradientType : Type 0 where
  fixed smooth : GradientType

abbrev pub ColorStep : Type 0
ColorStep = ℕ × String

pub record Gradient : Type 0 where
  pub key : String
  pub type_name : GradientType
  pub display_name : String
  pub steps : List ColorStep

abbrev pub color_blind_ten : Gradient
color_blind_ten = record {
  key = "COLOR_BLIND_TEN";
  type_name = fixed;
  display_name = "Color Blind Friendly";
  steps =
      (0, "#54B399")
      ∷ (10, "#D6BF57")
      ∷ (20, "#D36086")
      ∷ (30, "#9170B8")
      ∷ (40, "#CA8EAE")
      ∷ (50, "#AA6556")
      ∷ (60, "#B9A888")
      ∷ (70, "#DA8B45")
      ∷ (80, "#6092C0")
      ∷ (90, "#E7664C")
      ∷ (100, "#aad9cc")
      ∷ [];
}

abbrev evenly_spaced : Gradient
evenly_spaced = record {
  key = "EVENLY_SPACED";
  type_name = smooth;
  display_name = "Smooth";
  steps = (0, "#0098D1") ∷ (25, "#0B3267") ∷ (50, "#E7475A") ∷ (100, "#F5811F") ∷ [];
}

abbrev highlight_high_values : Gradient
highlight_high_values = record {
  key = "HIGHLIGHT_HIGH_VALUES";
  type_name = smooth;
  display_name = "Highlight High Values";
  steps = (0, "#0098D1") ∷ (90, "#0B3267") ∷ (99, "#E7475A") ∷ (100, "#F5811F") ∷ [];
}

abbrev highlight_low_values : Gradient
highlight_low_values = record {
  key = "HIGHLIGHT_LOW_VALUES";
  type_name = smooth;
  display_name = "Highlight Low Values";
  steps = (0, "#F5811F") ∷ (1, "#E7475A") ∷ (10, "#0B3267") ∷ (100, "#0098D1") ∷ [];
}

-- `GRADIENTS`.
abbrev pub gradients : GradientType → List Gradient
gradients fixed = color_blind_ten ∷ []
gradients smooth = evenly_spaced ∷ highlight_high_values ∷ highlight_low_values ∷ []

-- A missing key is undefined and does not throw, so the defaults are not fallen back to.
unfoldable pub get_gradient_safely : GradientType → String → Option Gradient
get_gradient_safely t key = find (λ (g : Gradient). str_eq g.key key) (gradients t)
