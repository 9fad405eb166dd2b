-- ===== src/Net/History/Shown.antt =====
-- web/js/net/history.js: what the components show while the tracker calls their handlers.
use Prim.Native.String.{String}
use text.Mathlib.Text.{◌==◌ as str_eq}
use text.Mathlib.TextEquality.{eq_iff}
use sigopt_server.Base.{
  ℕ, ◌≡◌, ◌↔◌, refl, Bool, true, false, ◌||◌, Option, none, some, List, [], ◌∷◌, any, ◌==◌, ==_iff,
  if◌then◌else◌, ◌∙◌, sym, arith, Bool-cases, Option-cases, subst, inl, inr,
}
use sigopt_server.Net.History.{call_handlers, is_changed}
use sigopt_server.Utils.Dict.{Dict, get, is_key, IsObject}

-- No two keys and no two handlers are the same.
abbrev pub IsDistinct : Dict ℕ → Type 0
IsDistinct [] = Unit
IsDistinct ((k, h) ∷ hs) = (any (λ (j, i). str_eq j k || (i == h)) hs ≡ false) × IsDistinct hs

abbrev pub Matches : String → Option ℕ → String → ℕ → Type 0
Matches k none j i = str_eq k j ≡ false
Matches k (some h) j i = str_eq k j ≡ (h == i)

-- A handler that is registered is not one that clashes with no handler.
pub apart :
    (k j : String) (h i : ℕ) (hs : Dict ℕ)
    → any (λ (l, m). str_eq l k || (m == h)) hs ≡ false
    → get j hs ≡ some i
    → (str_eq k j ≡ false) × ((h == i) ≡ false)
unfolding get
apart k j h i [] a e = ground arith
apart k j h i ((l, m) ∷ hs) a e =
    ground (arith, apart k j h i hs, eq_iff l k, eq_iff l j, eq_iff k j, ==_iff h i, ==_iff m h)

pub matching :
    (k j : String) (i : ℕ) (hs : Dict ℕ)
    → IsDistinct hs
    → get j hs ≡ some i
    → Matches k (get k hs) j i
unfolding get
matching k j i [] d e = ground arith
matching k j i ((l, m) ∷ hs) (a, d) e = elim (Bool-cases (str_eq l k)) [
  | inl at_k ↦ elim (Bool-cases (str_eq l j)) [
    | inl at_j ↦ rw at_k (ground (arith, eq_iff l k, eq_iff l j, eq_iff k j, ==_iff m i))
    | inr off_j ↦ rw at_k (ground (arith, eq_iff l k, eq_iff l j, eq_iff k j, apart l j m i hs a))
  ]
  | inr off_k ↦ rw off_k (elim (Bool-cases (str_eq l j)) [
    | inl at_j ↦ elim (Option-cases (get k hs)) [
      | inl missing ↦ rw missing (ground (arith, eq_iff l k, eq_iff l j, eq_iff k j))
      | inr (h, found) ↦ rw found (
          ground (
            arith,
            eq_iff l k,
            eq_iff l j,
            eq_iff k j,
            ==_iff h i,
            ==_iff m h,
            apart l k m h hs a found,
          ))
    ]
    | inr off_j ↦ matching k j i hs d (ground arith)
  ])
]

-- A component shows what its handler was called with last.
abbrev pub replay : {V : Type 0} → List (ℕ × V) → (ℕ → V) → ℕ → V
replay [] shown i = shown i
replay ((h, v) ∷ calls) shown i = replay calls (λ j. if h == j then v else shown j) i

abbrev pub Agrees : {V : Type 0} → Option V → V → Type 0
Agrees none x = Unit
Agrees (some v) x = x ≡ v

module _ {V : Type 0} (same : V → V → Bool) where
  -- The handlers of other keys leave a component alone.
  replay-other :
      (hs : Dict ℕ) (last e : Dict V) (shown : ℕ → V) (j : String) (i : ℕ)
      → IsDistinct hs
      → get j hs ≡ some i
      → is_key j e ≡ false
      → replay (call_handlers same hs last e).calls shown i ≡ shown i
  unfolding call_handlers
  replay-other hs last [] shown j i d f a = refl
  replay-other hs last ((k, v) ∷ e) shown j i d f a =
      let a' : is_key j e ≡ false = ground (arith, a) in
      elim (Bool-cases (is_changed same v (get k last))) [
        | inl changed ↦ rw changed (elim (Option-cases (get k hs)) [
          | inl missing ↦ rw missing refl
          | inr (h, found) ↦ rw found (
              ground (
                arith,
                a,
                matching k j i hs d f,
                found,
                replay-other hs last e (λ j. if h == j then v else shown j) j i d f a',
              ))
        ])
        | inr kept ↦ rw kept (replay-other hs last e shown j i d f a')
      ]

  module _ (same_iff : (v w : V) → (same v w ≡ true) ↔ (v ≡ w)) where
    -- The call for the key of a component, or none where it shows the value already.
    popped-own :
        (hs : Dict ℕ) (last e : Dict V) (shown : ℕ → V) (k : String) (v : V) (i : ℕ)
        → IsDistinct hs
        → get k hs ≡ some i
        → is_key k e ≡ false
        → Agrees (get k last) (shown i)
        → replay (call_handlers same hs last ((k, v) ∷ e)).calls shown i ≡ v
    unfolding call_handlers
    popped-own hs last e shown k v i d f o s = elim (Option-cases (get k last)) [
      | inl missing ↦
          rw (missing, f)
            (ground (
              arith,
              ==_iff i i,
              replay-other hs last e (λ j. if i == j then v else shown j) k i d f o,
            ))
      | inr (w, found) ↦ elim (Bool-cases (same v w)) [
        | inl equal ↦
            rw (found, equal)
              (replay-other hs last e shown k i d f o
                ∙ subst (λ o. Agrees o (shown i)) found s
                ∙ sym ((same_iff v w).0 equal))
        | inr differs ↦
            rw (found, differs, f)
              (ground (
                arith,
                ==_iff i i,
                replay-other hs last e (λ j. if i == j then v else shown j) k i d f o,
              ))
      ]
    ]

    pub popped-Agrees :
        (hs : Dict ℕ) (last e : Dict V) (shown : ℕ → V) (j : String) (i : ℕ)
        → IsDistinct hs
        → get j hs ≡ some i
        → IsObject e
        → Agrees (get j last) (shown i)
        → (call_handlers same hs last e).threw ≡ false
        → Agrees (get j e) (replay (call_handlers same hs last e).calls shown i)
    unfolding call_handlers get
    popped-Agrees hs last [] shown j i d f o s t = tt
    popped-Agrees hs last ((k, v) ∷ e) shown j i d f (o, os) s t = elim (Bool-cases (str_eq k j)) [
      | inl at ↦
          let here = sym ((eq_iff k j).0 at) in
          rw at (
            popped-own hs last e shown k v i d (subst (λ l. get l hs ≡ some i) here f) o
              (subst (λ l. Agrees (get l last) (shown i)) here s))
      | inr off ↦ rw off (elim (Bool-cases (is_changed same v (get k last))) [
        | inr kept ↦ rw kept (popped-Agrees hs last e shown j i d f os s (ground (arith, t, kept)))
        | inl changed ↦ elim (Option-cases (get k hs)) [
          | inl missing ↦ absurd (ground (arith, t, changed, missing))
          | inr (h, found) ↦
              rw (changed, found)
                (popped-Agrees hs last e (λ j. if h == j then v else shown j) j i d f os
                  (ground (arith, matching k j i hs d f, found, off, s))
                  (ground (arith, t, changed, found)))
        ]
      ])
    ]
