-- ===== src/Net/History/Registered.antt =====
-- web/js/net/history.js: the handlers that are registered, each under one key.
use Prim.Native.String.{String}
use text.Mathlib.Text.{◌==◌ as str_eq}
use text.Mathlib.TextEquality.{eq_iff}
use text.Mathlib.TextPositions.{eq_refl}
use sigopt_server.Base.{
  ℕ, ◌≡◌, refl, Bool, false, ◌||◌, some, [], ◌∷◌, any, All, ◌==◌, ==_iff, arith, Bool-cases, inl,
  inr, subst,
}
use sigopt_server.Net.History.Shown.{IsDistinct, apart}
use sigopt_server.Utils.Dict.{Dict, get, set, is_key}

-- A component that is registered, found by its key, has what all of them have.
pub All-at :
    (P : String × ℕ → Type 0) (hs : Dict ℕ) (j : String) (i : ℕ)
    → All P hs
    → get j hs ≡ some i
    → P (j, i)
unfolding get
All-at P [] j i a e = absurd (ground (arith, e))
All-at P ((k, h) ∷ hs) j i (p, a) e = elim (Bool-cases (str_eq k j)) [
  | inl at ↦
      let same_key : k ≡ j = (eq_iff k j).0 at in
      let same_handler : h ≡ i = ground (arith, e, at) in
      subst (λ l. P (l, i)) same_key (subst (λ m. P (k, m)) same_handler p)
  | inr off ↦ All-at P hs j i a (ground (arith, e, off))
]

pub All-of :
    (P : String × ℕ → Type 0) (hs : Dict ℕ)
    → IsDistinct hs
    → ((j : String) (i : ℕ) → get j hs ≡ some i → P (j, i))
    → All P hs
unfolding get
All-of P [] d f = tt
All-of P ((k, h) ∷ hs) (a, d) f = (
  f k h (rw (eq_refl k) refl),
  All-of P hs d (λ j i e. f j i (ground (arith, apart k j h i hs a e))),
)

-- A key or a handler that nobody has is added at the end.
any-set :
    (p : String × ℕ → Bool) (k : String) (h : ℕ) (hs : Dict ℕ)
    → any p hs ≡ false
    → p (k, h) ≡ false
    → is_key k hs ≡ false
    → any p (set k h hs) ≡ false
unfolding set
any-set p k h [] a q m = ground arith
any-set p k h ((l, i) ∷ hs) a q m = ground (arith, any-set p k h hs)

pub is_key-clash :
    (k : String) (h : ℕ) (hs : Dict ℕ)
    → any (λ (j, i). str_eq j k || (i == h)) hs ≡ false
    → is_key k hs ≡ false
is_key-clash k h [] a = refl
is_key-clash k h ((l, i) ∷ hs) a = ground (arith, is_key-clash k h hs)

pub IsDistinct-set :
    (k : String) (h : ℕ) (hs : Dict ℕ)
    → any (λ (j, i). str_eq j k || (i == h)) hs ≡ false
    → IsDistinct hs
    → IsDistinct (set k h hs)
unfolding set
IsDistinct-set k h [] a d = (refl, tt)
IsDistinct-set k h ((l, i) ∷ hs) a (b, d) =
    let off : str_eq l k ≡ false = ground (arith, a) in
    let apart_from : (i == h) ≡ false = ground (arith, a) in
    let rest : any (λ (j, i). str_eq j k || (i == h)) hs ≡ false = ground (arith, a) in
    rw off (
      any-set (λ (j, m). str_eq j l || (m == i)) k h hs b
          (ground (arith, off, apart_from, eq_iff k l, eq_iff l k, ==_iff h i, ==_iff i h))
          (is_key-clash k h hs rest),
      IsDistinct-set k h hs rest d,
    )
