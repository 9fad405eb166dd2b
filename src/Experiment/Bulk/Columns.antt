-- ===== src/Experiment/Bulk/Columns.antt =====
-- web/js/pages/experiment/core/bulkupload/page.js, web/js/utils.js: the names of the columns. Texts
-- are by characters, and the prefixes that are cut off have no character beyond the basic plane.
use Prim.Native.Char.{code}
use Prim.Native.String.{String}
use sigopt_server.Base.{
  ℕ, zero, suc, ◌≡◌, refl, Bool, Option, none, some, is_some, ◌==◌, ==_iff, if◌then◌else◌,
}

-- What stands behind a prefix, if the text starts with it: `startsWith`, and `slice` after it.
unfoldable pub after_prefix : String → String → Option String
after_prefix String.[] s = some s
after_prefix (String.◌∷◌ c p) String.[] = none
after_prefix (String.◌∷◌ c p) (String.◌∷◌ d s) =
    let rest = after_prefix p s in if code c == code d then rest else none

unfoldable pub starts_with : String → String → Bool
unfolding after_prefix
starts_with prefix s = is_some (after_prefix prefix s)

-- `text.slice(n)`.
unfoldable pub slice_from : ℕ → String → String
slice_from zero s = s
slice_from (suc n) String.[] = ""
slice_from (suc n) (String.◌∷◌ c s) = slice_from n s

-- A template literal with a prefix.
unfoldable pub prefixed : String → String → String
prefixed String.[] s = s
prefixed (String.◌∷◌ c p) s = String.◌∷◌ c (prefixed p s)

unfoldable pub parse_assignment_name : String → String
unfolding after_prefix
parse_assignment_name k = elim (after_prefix "parameter-" k) [
  | some name ↦ name
  | none ↦ elim (after_prefix "conditional-" k) [ some name ↦ name | none ↦ k ]
]

pub after_prefix-prefixed : (p s : String) → after_prefix p (prefixed p s) ≡ some s
unfolding after_prefix prefixed
after_prefix-prefixed String.[] s = refl
after_prefix-prefixed (String.◌∷◌ c p) s =
    rw ((==_iff (code c) (code c)).1 refl) (after_prefix-prefixed p s)
