-- ===== src/Project/Dimensions/Maps.antt =====
-- web/js/pages/project/data/dimensions.js: the ids and the indexes of the runs name each other.
use sigopt_server.Base.{
  ℕ, suc, ◌<◌, ◌≡◌, ◌≢◌, ◌↔◌, refl, sym, ap, subst, Option-cases, inl, inr, none, some, List, [],
  ◌∷◌, All, ==_iff, ◌==◌, arith, if◌then◌else◌,
}
use sigopt_server.Project.Dimensions.{NumberMap, lookup, put, invert}
use sigopt_server.Project.Dimensions.Create.{Services, index_ids}

pub lookup-put :
    {V : Type 0} (k j : ℕ) (v : V) (m : List (ℕ × V))
    → lookup j (put k v m) ≡ (if k == j then some v else lookup j m)
unfolding lookup put
lookup-put k j v [] = refl
lookup-put k j v ((i, w) ∷ m) =
    ground (arith, ==_iff k j, ==_iff i k, ==_iff i j, lookup-put k j v m)

All-put : (P : ℕ × ℕ → Type 0) (k v : ℕ) (m : NumberMap) → P (k, v) → All P m → All P (put k v m)
unfolding put
All-put P k v [] h hs = (h, tt)
All-put P k v ((j, w) ∷ m) h (g, gs) = ground (arith, All-put P k v m h gs)

-- No key and no value stands twice.
abbrev pub IsOneToOne : NumberMap → Type 0
IsOneToOne [] = Unit
IsOneToOne ((k, v) ∷ m) = (lookup k m ≡ none) × All (λ e. e.1 ≢ v) m × IsOneToOne m

lookup-All :
    (P : ℕ → Type 0) (k v : ℕ) (m : NumberMap) → All (λ e. P e.1) m → lookup k m ≡ some v → P v
unfolding lookup
lookup-All P k v [] hs e = cc
lookup-All P k v ((j, w) ∷ m) (h, hs) e = ground (arith, lookup-All P k v m hs)

pub put-IsOneToOne :
    (k v : ℕ) (m : NumberMap) → All (λ e. e.1 ≢ v) m → IsOneToOne m → IsOneToOne (put k v m)
unfolding put lookup
put-IsOneToOne k v [] fresh one = (refl, tt, tt)
put-IsOneToOne k v ((j, w) ∷ m) (ne, fresh) (absent, distinct, one) = ground (
  arith,
  ==_iff j k,
  lookup-put k j v m,
  All-put (λ e. e.1 ≢ w) k v m (λ e. ne (sym e)) distinct,
  put-IsOneToOne k v m fresh one,
)

invert-unseen :
    (j w : ℕ) (m : NumberMap)
    → lookup w (invert m) ≡ none
    → invert ((j, w) ∷ m) ≡ put w j (invert m)
unfolding invert
invert-unseen j w m unseen =
    ap (λ o. elim o [ none ↦ put w j (invert m) | some later ↦ invert m ]) unseen

pub invert_iff :
    (k v : ℕ) (m : NumberMap)
    → IsOneToOne m
    → (lookup v (invert m) ≡ some k) ↔ (lookup k m ≡ some v)
unfolding invert lookup
invert_iff k v [] one = ground arith
invert_iff k v ((j, w) ∷ m) (absent, distinct, one) =
    let unseen : lookup w (invert m) ≡ none = elim (Option-cases (lookup w (invert m))) [
      | inl e ↦ e
      | inr (l, e) ↦
          absurd (lookup-All (λ x. x ≢ w) l w m distinct ((invert_iff l w m one).0 e) refl)
    ] in
    subst (λ n. (lookup v n ≡ some k) ↔ (lookup k ((j, w) ∷ m) ≡ some v))
      (sym (invert-unseen j w m unseen))
      (ground (
        arith,
        lookup-put w v j (invert m),
        invert_iff k v m one,
        ==_iff w v,
        ==_iff j k,
        lookup-All (λ x. x ≢ w) k v m distinct,
      ))

module _ {R : Type 0} (services : Services R) where
  -- The entries name earlier runs by their index.
  index_ids-IsOneToOne :
      (index : ℕ) (runs : List R) (m : NumberMap)
      → All (λ e. e.1 < index) m
      → IsOneToOne m
      → IsOneToOne (index_ids services index runs m)
  unfolding index_ids
  index_ids-IsOneToOne index [] m below one = one
  index_ids-IsOneToOne index (run ∷ runs) m below one =
      index_ids-IsOneToOne (suc index) runs (put (services.id_of run) index m)
        (All-put (λ e. e.1 < suc index) (services.id_of run) index m (omega arith)
          (All-suc m below))
        (put-IsOneToOne (services.id_of run) index m (All-ne m below) one)
    where
      All-suc : (l : NumberMap) → All (λ e. e.1 < index) l → All (λ e. e.1 < suc index) l
      All-suc [] hs = tt
      All-suc (e ∷ l) (h, hs) = (omega arith, All-suc l hs)

      All-ne : (l : NumberMap) → All (λ e. e.1 < index) l → All (λ e. e.1 ≢ index) l
      All-ne [] hs = tt
      All-ne (e ∷ l) (h, hs) = ((λ same. omega arith), All-ne l hs)

  pub index_ids-invert :
      (runs : List R) (k v : ℕ)
      → let m = index_ids services 0 runs [] in
        (lookup v (invert m) ≡ some k) ↔ (lookup k m ≡ some v)
  index_ids-invert runs k v =
      invert_iff k v (index_ids services 0 runs []) (index_ids-IsOneToOne 0 runs [] tt tt)
