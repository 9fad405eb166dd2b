-- ===== src/Utils/Color.antt =====
-- web/js/utils.js: colorHexToRGB, over the code points of the text, or none for undefined and null.
-- The result is none where it throws.
use sigopt_server.Base.{
  ℕ, ◌+◌, ◌-◌, ◌*◌, ◌/◌, ◌%◌, ◌≡◌, ◌<◌, refl, Bool, false, ◌&&◌, Option, none, some, is_some, List,
  [], ◌∷◌, all, length, arith, leb, ◌==◌, if◌then◌else◌, Bool-cases, Option-cases, inl, inr,
}

pub record Rgb : Type 0 where
  pub r : ℕ
  pub g : ℕ
  pub b : ℕ

unfoldable pub hex_digit : ℕ → Option ℕ
hex_digit c =
    if leb b'0' c && leb c b'9'
    then some (c - b'0')
    else if leb b'a' c && leb c b'f'
    then some (c - b'a' + 10)
    else if leb b'A' c && leb c b'F'
    then some (c - b'A' + 10)
    else none

-- `hex.match(/^#[a-fA-F0-9]{6}$/u)`.
unfoldable pub is_color_hex : List ℕ → Bool
unfolding hex_digit
is_color_hex [] = false
is_color_hex (c ∷ digits) =
    c == b'#' && (length digits == 6 && all (λ d. is_some (hex_digit d)) digits)

-- `parseInt(…, 16)` on digits, the digits before them being `n`.
unfoldable pub parse_hex : ℕ → List ℕ → ℕ
unfolding hex_digit
parse_hex n [] = n
parse_hex n (c ∷ digits) = elim (hex_digit c) [ none ↦ n | some d ↦ parse_hex (16 * n + d) digits ]

-- A mask with a shift is a quotient and a remainder.
unfoldable pub color_hex_to_rgb : Option (List ℕ) → Option Rgb
unfolding is_color_hex parse_hex
color_hex_to_rgb none = none
color_hex_to_rgb (some []) = none
color_hex_to_rgb (some (c ∷ digits)) =
    if is_color_hex (c ∷ digits)
    then (let value = parse_hex 0 digits in
        some (record { r = value % 16777216 / 65536; g = value % 65536 / 256; b = value % 256 }))
    else none

abbrev pub pair_of : Option ℕ → Option ℕ → Option ℕ
pair_of (some m) (some n) = some (16 * m + n)
pair_of m n = none

abbrev pub two_digits : ℕ → ℕ → Option ℕ
two_digits c d = pair_of (hex_digit c) (hex_digit d)

abbrev pub color_of : Option ℕ → Option ℕ → Option ℕ → Option Rgb
color_of (some r) (some g) (some b) = some (record { r = r; g = g; b = b })
color_of r g b = none

-- The colour of a `#` with three pairs of digits, each read by itself.
abbrev pub color_of_pairs : Option (List ℕ) → Option Rgb
color_of_pairs (some (h ∷ c ∷ d ∷ e ∷ f ∷ i ∷ j ∷ [])) =
    if h == b'#' then color_of (two_digits c d) (two_digits e f) (two_digits i j) else none
color_of_pairs hex = none

components :
    (m n o p q s : ℕ)
    → m < 16
    → n < 16
    → o < 16
    → p < 16
    → q < 16
    → s < 16
    → let value = 16 * (16 * (16 * (16 * (16 * (16 * 0 + m) + n) + o) + p) + q) + s in
      (value % 16777216 / 65536 ≡ 16 * m + n)
      × ((value % 65536 / 256 ≡ 16 * o + p) × (value % 256 ≡ 16 * q + s))
components m n o p q s hm hn ho hp hq hs = (omega arith, (omega arith, omega arith))

IsDigit : Option ℕ → Type 0
IsDigit none = Unit
IsDigit (some d) = d < 16

hex_digit-bound : (c d : ℕ) → hex_digit c ≡ some d → d < 16
unfolding hex_digit
hex_digit-bound c d h = ground arith

hex_digit-IsDigit : (c : ℕ) → IsDigit (hex_digit c)
unfolding IsDigit
hex_digit-IsDigit c = elim (Option-cases (hex_digit c)) [
  | inl other ↦ rw other tt
  | inr (d, digit) ↦ rw digit (hex_digit-bound c d digit)
]

-- `parse_hex` with the digits as options.
abbrev parse_options : ℕ → List (Option ℕ) → ℕ
parse_options n [] = n
parse_options n (o ∷ digits) = elim o [ none ↦ n | some d ↦ parse_options (16 * n + d) digits ]

abbrev split_color : ℕ → Rgb
split_color value = record {
  r = value % 16777216 / 65536;
  g = value % 65536 / 256;
  b = value % 256;
}

six_options :
    (m n o p q s : Option ℕ)
    → IsDigit m
    → IsDigit n
    → IsDigit o
    → IsDigit p
    → IsDigit q
    → IsDigit s
    → (if all is_some (m ∷ n ∷ o ∷ p ∷ q ∷ s ∷ [])
        then some (split_color (parse_options 0 (m ∷ n ∷ o ∷ p ∷ q ∷ s ∷ [])))
        else none)
      ≡ color_of (pair_of m n) (pair_of o p) (pair_of q s)
unfolding IsDigit
six_options none n o p q s hm hn ho hp hq hs = refl
six_options (some m) none o p q s hm hn ho hp hq hs = refl
six_options (some m) (some n) none p q s hm hn ho hp hq hs = refl
six_options (some m) (some n) (some o) none q s hm hn ho hp hq hs = refl
six_options (some m) (some n) (some o) (some p) none s hm hn ho hp hq hs = refl
six_options (some m) (some n) (some o) (some p) (some q) none hm hn ho hp hq hs = refl
six_options (some m) (some n) (some o) (some p) (some q) (some s) hm hn ho hp hq hs =
    let parts = components m n o p q s hm hn ho hp hq hs in rw (parts.0, parts.1.0, parts.1.1) refl

-- colorHexToRGB throws unless its argument is a `#` and six hexadecimal digits, and then its
-- components are what the three pairs of digits denote.
pub color_hex_to_rgb-color_of_pairs :
    (hex : Option (List ℕ)) → color_hex_to_rgb hex ≡ color_of_pairs hex
unfolding color_hex_to_rgb is_color_hex parse_hex
color_hex_to_rgb-color_of_pairs none = refl
color_hex_to_rgb-color_of_pairs (some []) = refl
color_hex_to_rgb-color_of_pairs (some (h ∷ [])) = ground arith
color_hex_to_rgb-color_of_pairs (some (h ∷ c ∷ [])) = ground arith
color_hex_to_rgb-color_of_pairs (some (h ∷ c ∷ d ∷ [])) = ground arith
color_hex_to_rgb-color_of_pairs (some (h ∷ c ∷ d ∷ e ∷ [])) = ground arith
color_hex_to_rgb-color_of_pairs (some (h ∷ c ∷ d ∷ e ∷ f ∷ [])) = ground arith
color_hex_to_rgb-color_of_pairs (some (h ∷ c ∷ d ∷ e ∷ f ∷ i ∷ [])) = ground arith
color_hex_to_rgb-color_of_pairs (some (h ∷ c ∷ d ∷ e ∷ f ∷ i ∷ j ∷ [])) =
    elim (Bool-cases (h == b'#')) [
      | inl hash ↦ rw hash (
          six_options (hex_digit c) (hex_digit d) (hex_digit e) (hex_digit f) (hex_digit i)
            (hex_digit j) (hex_digit-IsDigit c) (hex_digit-IsDigit d) (hex_digit-IsDigit e)
            (hex_digit-IsDigit f) (hex_digit-IsDigit i) (hex_digit-IsDigit j))
      | inr other ↦ rw other refl
    ]
color_hex_to_rgb-color_of_pairs (some (h ∷ c ∷ d ∷ e ∷ f ∷ i ∷ j ∷ k ∷ digits)) = ground arith
