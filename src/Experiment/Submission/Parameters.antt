-- ===== src/Experiment/Submission/Parameters.antt =====
-- web/js/experiment/editor.js: the form in which sanitizeExperiment leaves a parameter.
use Prim.Native.String.{String}
use text.Mathlib.Text.{◌==◌ as str_eq}
use sigopt_server.Base.{
  ℕ, ◌≡◌, ◌↔◌, subst, refl, Bool, true, false, not, ◌&&◌, ◌||◌, Option, none, some, is_some, arith,
  if◌then◌else◌, get_or, List, [],
}
use sigopt_server.Experiment.Model.{categorical, Bounds, Parameter}
use sigopt_server.Experiment.Submission.{
  sanitize_number, sanitize_bounds, sanitize_default, sanitize_parameter,
}
use sigopt_server.Utils.Json.{Json, undefined, null, boolean, number, str, array, object}

module _ (as_number : String → Option ℕ) where
  -- A text that is neither blank nor a number, or another value.
  abbrev pub is_plain : Bool → Json → Bool
  is_plain is_categorical (str s) =
      not (str_eq s "") && (is_categorical || not (is_some (as_number s)))
  is_plain is_categorical j = true

  abbrev pub is_plain_bounds : Option Bounds → Bool
  is_plain_bounds none = true
  is_plain_bounds (some b) = is_plain false b.min && is_plain false b.max

  abbrev pub is_in_form :
      Bool → Option Bounds → Option (List String) → Option (List ℕ) → Json → Bool
  is_in_form is_categorical bounds values grid value =
      (if is_categorical then is_some values else not (is_some values))
      && (not (is_some bounds && (is_categorical || is_some grid))
          && (is_plain_bounds bounds && is_plain is_categorical value))

  abbrev pub is_sanitized : Parameter → Bool
  is_sanitized p =
      is_in_form (str_eq p.type_name categorical) p.bounds p.categorical_values p.grid
        p.default_value

  number-is_plain : (j : Json) → is_plain false (sanitize_number as_number j) ≡ true
  number-is_plain undefined = refl
  number-is_plain null = refl
  number-is_plain (boolean b) = refl
  number-is_plain (number n) = refl
  number-is_plain (array items) = refl
  number-is_plain (object fields) = refl
  number-is_plain (str s) = ground arith

  default-is_plain : (b : Bool) (j : Json) → is_plain b (sanitize_default as_number b j) ≡ true
  default-is_plain true undefined = refl
  default-is_plain true null = refl
  default-is_plain true (boolean b) = refl
  default-is_plain true (number n) = refl
  default-is_plain true (array items) = refl
  default-is_plain true (object fields) = refl
  default-is_plain true (str s) = ground arith
  default-is_plain false undefined = refl
  default-is_plain false null = refl
  default-is_plain false (boolean b) = refl
  default-is_plain false (number n) = refl
  default-is_plain false (array items) = refl
  default-is_plain false (object fields) = refl
  default-is_plain false (str s) = ground arith

  plain-fixed : (b : Bool) (j : Json) → is_plain b j ≡ true → sanitize_default as_number b j ≡ j
  plain-fixed true (str s) h = ground arith
  plain-fixed false (str s) h = ground arith
  plain-fixed b undefined h = refl
  plain-fixed b null h = refl
  plain-fixed b (boolean c) h = ground arith
  plain-fixed b (number n) h = ground arith
  plain-fixed b (array items) h = ground arith
  plain-fixed b (object fields) h = ground arith

  number-fixed : (j : Json) → is_plain false j ≡ true → sanitize_number as_number j ≡ j
  number-fixed (str s) h = ground arith
  number-fixed undefined h = refl
  number-fixed null h = refl
  number-fixed (boolean c) h = refl
  number-fixed (number n) h = refl
  number-fixed (array items) h = refl
  number-fixed (object fields) h = refl

  bounds-is_plain : (b : Option Bounds) → is_plain_bounds (sanitize_bounds as_number b) ≡ true
  bounds-is_plain none = refl
  bounds-is_plain (some b) = rw (number-is_plain b.min, number-is_plain b.max) refl

  bounds-fixed : (b : Option Bounds) → is_plain_bounds b ≡ true → sanitize_bounds as_number b ≡ b
  bounds-fixed none h = refl
  bounds-fixed (some b) h =
      rw (number-fixed b.min (ground arith), number-fixed b.max (ground arith)) refl

  made_in_form :
      (b : Bool) (bounds : Option Bounds) (values : Option (List String)) (grid : Option (List ℕ))
      (value : Json)
      → is_in_form b
          (if is_some grid || b then none else sanitize_bounds as_number bounds)
          (if b then some (get_or values []) else none)
          grid
          (sanitize_default as_number b value)
        ≡ true
  made_in_form true bounds values none value = default-is_plain true value
  made_in_form true bounds values (some grid) value = default-is_plain true value
  made_in_form false bounds values (some grid) value = default-is_plain false value
  made_in_form false bounds values none value =
      ground (arith, bounds-is_plain bounds, default-is_plain false value)

  values_in_form :
      (b : Bool) (values : Option (List String))
      → (if b then is_some values else not (is_some values)) ≡ true
      → (if b then some (get_or values []) else none) ≡ values
  values_in_form true (some values) h = refl
  values_in_form true none h = ground arith
  values_in_form false none h = refl
  values_in_form false (some values) h = ground arith

  bounds_in_form :
      (b : Bool) (bounds : Option Bounds) (values : Option (List String)) (grid : Option (List ℕ))
      (value : Json)
      → is_in_form b bounds values grid value ≡ true
      → (if is_some grid || b then none else sanitize_bounds as_number bounds) ≡ bounds
  bounds_in_form true bounds values grid value h = ground arith
  bounds_in_form false bounds values none value h = bounds-fixed bounds (ground arith)
  bounds_in_form false bounds values (some grid) value h = ground arith

  form-fixed : (p : Parameter) → is_sanitized p ≡ true → sanitize_parameter as_number p ≡ p
  unfolding sanitize_parameter
  form-fixed p h =
      let b = str_eq p.type_name categorical in
      rw
        (
          bounds_in_form b p.bounds p.categorical_values p.grid p.default_value h,
          values_in_form b p.categorical_values (ground arith),
          plain-fixed b p.default_value (ground arith),
        )
        refl

  -- sanitizeExperiment leaves each parameter with categorical values exactly if it is categorical,
  -- with no bounds if it is categorical or has a grid, and with no blank and no text of a number
  -- among its bounds and its default value, but for the default of a categorical one; the
  -- parameters in that form are exactly those that it does not change.
  pub sanitize_parameter-is_sanitized :
      (p : Parameter)
      → (is_sanitized (sanitize_parameter as_number p) ≡ true)
        × ((is_sanitized p ≡ true) ↔ (sanitize_parameter as_number p ≡ p))
  unfolding sanitize_parameter
  sanitize_parameter-is_sanitized p =
      let b = str_eq p.type_name categorical in
      let made = made_in_form b p.bounds p.categorical_values p.grid p.default_value in
      (made, (form-fixed p, λ e. subst (λ q. is_sanitized q ≡ true) e made))
