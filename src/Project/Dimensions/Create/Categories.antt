-- ===== src/Project/Dimensions/Create/Categories.antt =====
-- web/js/pages/project/data/dimensions.js: which columns are categorical.
use mathlib.Core.Bool
use Prim.Native.String.{String}
use sigopt_server.Base.{
  ◌≡◌, ◌≤◌, ◌⊎◌, ◌∙◌, refl, sym, subst, true, false, ◌||◌, none, some, List, [], ◌∷◌, ◌++◌, length,
  ltb, Bool-cases, inl, inr, arith, All, All-append, map,
}
use sigopt_server.Project.Dimensions.{
  Value, same, contains, Dimension, string, assumed_categorical, partition, is_assumed_categorical,
}
use sigopt_server.Project.Dimensions.Create.{
  Services, collect, give_up, check_categorical, handle_assumed_categorical,
}
use sigopt_server.Project.Dimensions.Create.Values.{same_iff, fold_runs, column, each_run-fold}

pub contains-snoc :
    (vs : List Value) (v w : Value) → contains (vs ++ v ∷ []) w ≡ (contains vs w || same v w)
contains-snoc [] v w = ground arith
contains-snoc (u ∷ vs) v w = ground (arith, contains-snoc vs v w)

-- No value stands twice.
abbrev pub Distinct : List Value → Type 0
Distinct [] = Unit
Distinct (v ∷ vs) = (contains vs v ≡ false) × Distinct vs

Distinct-snoc :
    (vs : List Value) (v : Value) → Distinct vs → contains vs v ≡ false → Distinct (vs ++ v ∷ [])
Distinct-snoc [] v d h = (refl, tt)
Distinct-snoc (u ∷ vs) v (n, d) h =
    ground (arith, Distinct-snoc vs v d, contains-snoc vs v u, same_iff u v, same_iff v u)

-- The values seen so far are the categories, each once and at most 20; or there were more, and
-- the column is one of strings.
abbrev pub Categories : (Value → Type 0) → Dimension → Type 0
Categories Seen d =
    ((d.value_type ≡ string) × (d.categorical_values ≡ none))
    ⊎ ((d.value_type ≡ assumed_categorical)
        × ((vs : List Value) × (d.categorical_values ≡ some vs)
            × (length vs ≤ 20)
            × Distinct vs
            × ((v : Value) → Seen v → contains vs v ≡ true)))

Categories-weaken :
    (Seen More : Value → Type 0) (d : Dimension)
    → ((v : Value) → More v → Seen v)
    → Categories Seen d
    → Categories More d
Categories-weaken Seen More d f (inl h) = inl h
Categories-weaken Seen More d f (inr (t, (vs, e, few, distinct, seen))) =
    inr (t, (vs, e, few, distinct, λ v m. seen v (f v m)))

-- The two `if`s of the loop, for a value: known, one too many, and new.
pub check-known :
    (v : Value) (vs : List Value) (d : Dimension)
    → d.value_type ≡ assumed_categorical
    → d.categorical_values ≡ some vs
    → length vs ≤ 20
    → contains vs v ≡ true
    → give_up (collect v d) ≡ d
check-known v vs d t e few c = rw (t, e) (rw c (ground arith))

pub check-many :
    (v : Value) (vs : List Value) (d : Dimension)
    → d.value_type ≡ assumed_categorical
    → d.categorical_values ≡ some vs
    → contains vs v ≡ false
    → ltb 20 (length (vs ++ v ∷ [])) ≡ true
    → give_up (collect v d) ≡ record d { value_type = string; categorical_values = none }
check-many v vs d t e c m = rw (t, e) (rw c (rw m refl))

pub check-new :
    (v : Value) (vs : List Value) (d : Dimension)
    → d.value_type ≡ assumed_categorical
    → d.categorical_values ≡ some vs
    → contains vs v ≡ false
    → ltb 20 (length (vs ++ v ∷ [])) ≡ false
    → give_up (collect v d) ≡ record d { categorical_values = some (vs ++ v ∷ []) }
check-new v vs d t e c m = rw (t, e) (rw c (rw m refl))

check-Categories :
    (Seen : Value → Type 0) (v : Value) (d : Dimension)
    → Categories Seen d
    → Categories (λ w. Seen w ⊎ (w ≡ v)) (give_up (collect v d))
check-Categories Seen v d (inl (t, no_values)) = inl (ground arith, ground arith)
check-Categories Seen v d (inr (t, (vs, e, few, distinct, seen))) =
    elim (Bool-cases (contains vs v)) [
      | inl c ↦
          subst (Categories (λ w. Seen w ⊎ (w ≡ v))) (sym (check-known v vs d t e few c))
            (inr (t, (vs, e, few, distinct, λ w x. elim x [ inl s ↦ seen w s | inr h ↦ rw h c ])))
      | inr c ↦ elim (Bool-cases (ltb 20 (length (vs ++ v ∷ [])))) [
        | inl m ↦
            subst (Categories (λ w. Seen w ⊎ (w ≡ v))) (sym (check-many v vs d t e c m))
              (inl (refl, refl))
        | inr m ↦ subst (Categories (λ w. Seen w ⊎ (w ≡ v))) (sym (check-new v vs d t e c m)) (
            inr (
              t,
              (vs ++ v ∷ [], refl, ground arith, Distinct-snoc vs v distinct c, λ w h. added w h),
            ))
      ]
    ]
  where
    added : (w : Value) → (Seen w) ⊎ (w ≡ v) → contains (vs ++ v ∷ []) w ≡ true
    added w (inl s) = ground (arith, contains-snoc vs v w, seen w s)
    added w (inr h) = ground (arith, contains-snoc vs v w, same_iff v w, sym h)

module _ {R : Type 0} (services : Services R) where
  fold-Categories :
      (key : String) (runs : List R) (Seen : Value → Type 0) (d : Dimension)
      → d.key ≡ key
      → Categories Seen d
      → Categories
          (λ v. Seen v ⊎ (contains (column services key runs) v ≡ true))
          (fold_runs (check_categorical services) runs d)
  unfolding fold_runs check_categorical
  fold-Categories key [] Seen d k c =
      Categories-weaken Seen _ d (λ v x. elim x [ inl s ↦ s | inr h ↦ absurd (Bool.false≢true h) ])
        c
  fold-Categories key (run ∷ runs) Seen d k c =
      let v = services.get run key in
      let d' = check_categorical services run d in
      Categories-weaken (λ w. (Seen w ⊎ (w ≡ v)) ⊎ (contains (column services key runs) w ≡ true)) _
        (fold_runs (check_categorical services) runs d')
        (λ w x. elim x [ inl s ↦ inl (inl s) | inr h ↦ moved w h ])
        (fold-Categories key runs (λ w. Seen w ⊎ (w ≡ v)) d' (ground (arith, k))
          (subst (λ j. Categories (λ w. Seen w ⊎ (w ≡ services.get run j)) d') k
            (check-Categories Seen (services.get run d.key) d c)))
    where
      moved :
          (w : Value)
          → contains (column services key (run ∷ runs)) w ≡ true
          → (Seen w ⊎ (w ≡ services.get run key)) ⊎ (contains (column services key runs) w ≡ true)
      moved w h = elim (Bool-cases (same (services.get run key) w)) [
        | inl e ↦ inl (inr (sym ((same_iff _ w).0 e)))
        | inr e ↦ inr (ground arith)
      ]

  fold-key :
      (runs : List R) (d : Dimension) → (fold_runs (check_categorical services) runs d).key ≡ d.key
  unfolding fold_runs check_categorical
  fold-key [] d = refl
  fold-key (run ∷ runs) d = fold-key runs (check_categorical services run d) ∙ ground arith

  started : Dimension → Dimension
  started d = record d { categorical_values = some [] }

  -- The values of the column are its categories.
  abbrev pub Seen : List R → Dimension → Value → Type 0
  Seen runs d v = contains (column services d.key runs) v ≡ true

  folded-Categories :
      (runs : List R) (d : Dimension)
      → d.value_type ≡ assumed_categorical
      → let r = fold_runs (check_categorical services) runs (started d) in
        Categories (Seen runs r) r
  unfolding started
  folded-Categories runs d t =
      let r = fold_runs (check_categorical services) runs (started d) in
      Categories-weaken _ (Seen runs r) r
        (λ v h. inr (
          subst (λ key. contains (column services key runs) v ≡ true) (fold-key runs (started d))
            h))
        (fold-Categories d.key runs (λ v. ⊥) (started d) refl
          (inr (t, ([], refl, omega arith, tt, λ v h. absurd h))))

  -- After the loop each column is one of strings with no categories; or it is assumed to be
  -- categorical, has at most 20 categories, each once, and the value of each run is one of them; or
  -- it is not assumed to be categorical.
  pub handle_assumed_categorical-Categories :
      (dimensions : List Dimension) (runs : List R)
      → All
          (λ d. Categories (Seen runs d) d ⊎ (is_assumed_categorical d.value_type ≡ false))
          (handle_assumed_categorical services dimensions runs)
  unfolding handle_assumed_categorical started
  handle_assumed_categorical-Categories dimensions runs =
      let parts = partition (λ (d : Dimension). is_assumed_categorical d.value_type) dimensions in
      All-append _ _ parts.1
        (subst (All _) (sym (each_run-fold (check_categorical services) runs (map started parts.0)))
          (looped parts.0 (kept dimensions)))
        (left dimensions)
    where
      kept :
          (ds : List Dimension)
          → All
              (λ d. d.value_type ≡ assumed_categorical)
              (partition (λ (d : Dimension). is_assumed_categorical d.value_type) ds).0
      kept [] = tt
      kept (d ∷ ds) = ground (arith, kept ds)

      left :
          (ds : List Dimension)
          → All
              (λ d. Categories (Seen runs d) d ⊎ (is_assumed_categorical d.value_type ≡ false))
              (partition (λ (d : Dimension). is_assumed_categorical d.value_type) ds).1
      left [] = tt
      left (d ∷ ds) = elim (Bool-cases (is_assumed_categorical d.value_type)) [
        | inl e ↦ rw e (left ds)
        | inr e ↦ rw e (inr e, left ds)
      ]

      looped :
          (ds : List Dimension)
          → All (λ d. d.value_type ≡ assumed_categorical) ds
          → All
              (λ d. Categories (Seen runs d) d ⊎ (is_assumed_categorical d.value_type ≡ false))
              (map (fold_runs (check_categorical services) runs) (map started ds))
      looped [] h = tt
      looped (d ∷ ds) (h, hs) = (inl (folded-Categories runs d h), looped ds hs)
