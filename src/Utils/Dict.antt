-- ===== src/Utils/Dict.antt =====
-- The objects of JavaScript that serve as maps: the keys in the order of their first assignment,
-- each with its value. `get` is `object[key]`, with none for a key that is missing.
use Prim.Native.String.{String}
use text.Mathlib.Text.{◌==◌ as str_eq}
use text.Mathlib.TextEquality.{eq_iff}
use text.Mathlib.TextPositions.{eq_refl}
use sigopt_server.Base.{
  ◌≡◌, refl, Bool, false, ◌||◌, Option, none, some, List, [], ◌∷◌, ◌++◌, any, append-nil,
  append_assoc, ◌∙◌, if◌then◌else◌, arith,
}

abbrev pub Dict {ℓ} : Type ℓ → Type ℓ
Dict V = List (String × V)

module _ {ℓ} {V : Type ℓ} where
  unfoldable pub get : String → Dict V → Option V
  get k [] = none
  get k ((j, v) ∷ d) = if str_eq j k then some v else get k d

  -- `object[key] = value`.
  unfoldable pub set : String → V → Dict V → Dict V
  set k v [] = (k, v) ∷ []
  set k v ((j, w) ∷ d) = if str_eq j k then (j, v) ∷ d else (j, w) ∷ set k v d

  -- `_.extend(object, other)`.
  unfoldable pub extend : Dict V → Dict V → Dict V
  unfolding set
  extend d [] = d
  extend d ((k, v) ∷ e) = extend (set k v d) e

  pub get-set :
      (k j : String) (v : V) (d : Dict V)
      → get j (set k v d) ≡ (if str_eq k j then some v else get j d)
  unfolding get set
  get-set k j v [] = refl
  get-set k j v ((i, w) ∷ d) = ground (arith, eq_iff k j, eq_iff i k, eq_iff i j, get-set k j v d)

  abbrev pub is_key : String → Dict V → Bool
  is_key k d = any (λ (j, v). str_eq j k) d

  -- Every key stands once, as in any object.
  abbrev pub IsObject : Dict V → Type 0
  IsObject [] = Unit
  IsObject ((k, v) ∷ d) = (is_key k d ≡ false) × IsObject d

  pub get-missing : (k : String) (d : Dict V) → is_key k d ≡ false → get k d ≡ none
  unfolding get
  get-missing k [] h = refl
  get-missing k ((j, v) ∷ d) h = ground (arith, get-missing k d)

  is_key-set :
      (k j : String) (v : V) (d : Dict V) → is_key j (set k v d) ≡ (str_eq k j || is_key j d)
  unfolding set
  is_key-set k j v [] = ground arith
  is_key-set k j v ((i, w) ∷ d) =
      ground (arith, eq_iff k j, eq_iff i k, eq_iff i j, is_key-set k j v d)

  pub IsObject-set : (k : String) (v : V) (d : Dict V) → IsObject d → IsObject (set k v d)
  unfolding set
  IsObject-set k v [] o = (refl, tt)
  IsObject-set k v ((i, w) ∷ d) (a, o) =
      ground (arith, eq_iff i k, eq_iff k i, is_key-set k i v d, IsObject-set k v d o)

  pub IsObject-extend : (d e : Dict V) → IsObject d → IsObject (extend d e)
  unfolding extend
  IsObject-extend d [] o = o
  IsObject-extend d ((k, v) ∷ e) o = IsObject-extend (set k v d) e (IsObject-set k v d o)

  pub set-set : (k : String) (v : V) (d : Dict V) → set k v (set k v d) ≡ set k v d
  unfolding set
  set-set k v [] = rw (eq_refl k) refl
  set-set k v ((j, w) ∷ d) = ground (arith, eq_iff j k, set-set k v d)

  set-fresh : (k : String) (v : V) (d : Dict V) → is_key k d ≡ false → set k v d ≡ d ++ (k, v) ∷ []
  unfolding set
  set-fresh k v [] a = refl
  set-fresh k v ((j, w) ∷ d) a = ground (arith, a, set-fresh k v d)

  is_key-append :
      (j k : String) (v : V) (d e : Dict V)
      → is_key j (d ++ (k, v) ∷ e) ≡ false
      → str_eq k j ≡ false
  is_key-append j k v [] e a = ground (arith, a)
  is_key-append j k v ((i, w) ∷ d) e a = is_key-append j k v d e (ground (arith, a))

  is_key-shared :
      (k : String) (v : V) (d e : Dict V) → IsObject (d ++ (k, v) ∷ e) → is_key k d ≡ false
  is_key-shared k v [] e o = refl
  is_key-shared k v ((j, w) ∷ d) e (a, o) =
      ground (arith, is_key-shared k v d e o, eq_iff j k, eq_iff k j, is_key-append j k v d e a)

  -- Keys that are all new are added at the end.
  extend-append : (d e : Dict V) → IsObject (d ++ e) → extend d e ≡ d ++ e
  unfolding extend
  extend-append d [] o = rw append-nil
  extend-append d ((k, v) ∷ e) o =
      rw (set-fresh k v d (is_key-shared k v d e o))
        (extend-append (d ++ (k, v) ∷ []) e (rw append_assoc o) ∙ append_assoc d ((k, v) ∷ []) e)

  pub extend-IsObject : (d : Dict V) → IsObject d → extend [] d ≡ d
  extend-IsObject d o = extend-append [] d o
