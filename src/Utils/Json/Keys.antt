-- ===== src/Utils/Json/Keys.antt =====
-- web/js/utils.js: lists of keys, as `_.contains`, `_.filter` and `_.reject` treat them.
use Prim.Native.String.{String}
use text.Mathlib.TextEquality.{eq_iff}
use sigopt_server.Base.{
  ◌≡◌, refl, Bool, false, ◌||◌, List, [], ◌∷◌, ◌++◌, filter, arith, Bool-cases, inl, inr,
  if◌then◌else◌,
}
use sigopt_server.Utils.Json.{has_key}

pub has_key-filter :
    (p : String → Bool) (keys : List String) (k : String)
    → has_key (filter p keys) k ≡ (if has_key keys k then p k else false)
has_key-filter p [] k = refl
has_key-filter p (l ∷ keys) k = elim (Bool-cases (p l)) [
  | inl kept ↦ grind (arith, eq_iff l k, has_key-filter p keys k)
  | inr dropped ↦ grind (arith, eq_iff l k, has_key-filter p keys k)
]

pub has_key-append :
    (keys others : List String) (k : String)
    → has_key (keys ++ others) k ≡ (has_key keys k || has_key others k)
has_key-append [] others k = refl
has_key-append (l ∷ keys) others k = ground (arith, has_key-append keys others k)
