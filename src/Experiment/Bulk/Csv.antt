-- ===== src/Experiment/Bulk/Csv.antt =====
-- web/js/pages/experiment/csvutils.js: texts that a spreadsheet would read as formulas.
use Prim.Native.Char.{char, code}
use Prim.Native.String.{String}
use sigopt_server.Base.{
  ℕ, ◌≡◌, refl, Bool, true, false, List, [], ◌∷◌, any, ◌==◌, if◌then◌else◌, arith, Bool-cases,
}

-- A cell of a table: a text, or another value, which has no characters.
pub data Cell (A : Type 0) : Type 0 where
  text : String → Cell A
  other : A → Cell A

-- The codes of `=`, `-`, `+` and `@`.
abbrev pub invalid_start_characters : List ℕ
invalid_start_characters = b'=' ∷ b'-' ∷ b'+' ∷ b'@' ∷ []

abbrev pub trim_leading_spaces : String → String
trim_leading_spaces String.[] = ""
trim_leading_spaces (String.◌∷◌ c s) =
    let rest = trim_leading_spaces s in if code c == b' ' then rest else String.◌∷◌ c s

abbrev pub starts_with_code : String → ℕ → Bool
starts_with_code String.[] n = false
starts_with_code (String.◌∷◌ c s) n = code c == n

pub add_leading_space : String → String
add_leading_space s = String.◌∷◌ (char b' ' tt) s

abbrev pub maybe_remove_leading_space : String → String
maybe_remove_leading_space String.[] = ""
maybe_remove_leading_space (String.◌∷◌ c s) = if code c == b' ' then s else String.◌∷◌ c s

abbrev pub has_dangerous_prefix : String → Bool
has_dangerous_prefix s =
    any (λ c. starts_with_code (trim_leading_spaces s) c) invalid_start_characters

dangerous-start :
    (s : String)
    → any (starts_with_code s) invalid_start_characters ≡ true
    → has_dangerous_prefix s ≡ true
dangerous-start String.[] h = h
dangerous-start (String.◌∷◌ c s) h = ground (arith, h)

spaced :
    (s : String)
    → (has_dangerous_prefix (add_leading_space s) ≡ has_dangerous_prefix s)
      × ((maybe_remove_leading_space (add_leading_space s) ≡ s)
          × (any (starts_with_code (add_leading_space s)) invalid_start_characters ≡ false))
unfolding add_leading_space
spaced s = (refl, (refl, refl))

module _ {A : Type 0} where
  unfoldable pub excel_sanitize : Cell A → Cell A
  unfolding add_leading_space
  excel_sanitize (text s) = text (if has_dangerous_prefix s then add_leading_space s else s)
  excel_sanitize (other a) = other a

  unfoldable pub excel_unsanitize : Cell A → Cell A
  excel_unsanitize (text s) =
      text (if has_dangerous_prefix s then maybe_remove_leading_space s else s)
  excel_unsanitize (other a) = other a

  -- No cell begins with a character that starts a formula.
  abbrev pub begins_formula : Cell A → Bool
  begins_formula (text s) = any (starts_with_code s) invalid_start_characters
  begins_formula (other a) = false

  -- Every cell that is written is read back as it was, and what is written never begins with a
  -- character that starts a formula.
  pub excel_unsanitize-excel_sanitize :
      (c : Cell A)
      → (excel_unsanitize (excel_sanitize c) ≡ c) × (begins_formula (excel_sanitize c) ≡ false)
  unfolding excel_unsanitize excel_sanitize
  excel_unsanitize-excel_sanitize (other a) = (refl, refl)
  excel_unsanitize-excel_sanitize (text s) =
      ground (arith, spaced s, dangerous-start s, Bool-cases (has_dangerous_prefix s))
