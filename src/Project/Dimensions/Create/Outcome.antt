-- ===== src/Project/Dimensions/Create/Outcome.antt =====
-- web/js/pages/project/data/dimensions.js: what `handleAssumedCategorical` makes of each column.
use sigopt_server.Base.{
  ◌≡◌, ◌≤◌, ◌∙◌, refl, ap, sym, Bool, true, false, not, none, some, List, [], ◌∷◌, ◌++◌, length,
  ltb, filter, map, Bool-cases, inl, inr, arith, if◌then◌else◌,
}
use sigopt_server.Project.Dimensions.{
  Value, contains, Dimension, string, assumed_categorical, partition, is_assumed_categorical,
}
use sigopt_server.Project.Dimensions.Create.{
  Services, check_categorical, handle_assumed_categorical,
}
use sigopt_server.Project.Dimensions.Create.Categories.{check-known, check-many, check-new}
use sigopt_server.Project.Dimensions.Create.Values.{fold_runs, column, each_run-fold}

-- The values behind those already seen, each where it stands first.
abbrev pub distinct_from : List Value → List Value → List Value
distinct_from seen [] = seen
distinct_from seen (v ∷ vs) = distinct_from (if contains seen v then seen else seen ++ v ∷ []) vs

-- A column with these distinct values.
abbrev pub outcome : Dimension → List Value → Dimension
outcome d vs =
    if ltb 20 (length vs)
    then record d { value_type = string; categorical_values = none }
    else record d { value_type = assumed_categorical; categorical_values = some vs }

length-snoc : (vs : List Value) (v : Value) → length vs ≤ length (vs ++ v ∷ [])
length-snoc [] v = omega arith
length-snoc (u ∷ vs) v = omega (arith, length-snoc vs v)

distinct_from-grows : (seen vs : List Value) → length seen ≤ length (distinct_from seen vs)
distinct_from-grows seen [] = omega arith
distinct_from-grows seen (v ∷ vs) = elim (Bool-cases (contains seen v)) [
  | inl c ↦ rw c (distinct_from-grows seen vs)
  | inr c ↦ rw c (omega (arith, length-snoc seen v, distinct_from-grows (seen ++ v ∷ []) vs))
]

outcome-many :
    (d : Dimension) (vs : List Value)
    → ltb 20 (length vs) ≡ true
    → record d { value_type = string; categorical_values = none } ≡ outcome d vs
outcome-many d vs h = rw h refl

distinct_from-step :
    (b : Bool) (d : Dimension) (seen : List Value) (v : Value) (vs : List Value)
    → contains seen v ≡ b
    → outcome d (distinct_from (if b then seen else seen ++ v ∷ []) vs)
      ≡ outcome d (distinct_from seen (v ∷ vs))
distinct_from-step b d seen v vs c =
    ap (λ known. outcome d (distinct_from (if known then seen else seen ++ v ∷ []) vs)) (sym c)

-- The column in the loop, with the values seen so far.
abbrev collecting : Dimension → List Value → Dimension
collecting d vs = record d { value_type = assumed_categorical; categorical_values = some vs }

module _ {R : Type 0} (services : Services R) where
  fold-string :
      (runs : List R) (d : Dimension)
      → let gone = record d { value_type = string; categorical_values = none } in
        fold_runs (check_categorical services) runs gone ≡ gone
  unfolding fold_runs check_categorical
  fold-string [] d = refl
  fold-string (run ∷ runs) d = fold-string runs d

  fold-outcome :
      (runs : List R) (d : Dimension) (seen : List Value)
      → length seen ≤ 20
      → fold_runs (check_categorical services) runs (collecting d seen)
        ≡ outcome d (distinct_from seen (column services d.key runs))
  unfolding fold_runs check_categorical
  fold-outcome [] d seen few =
      let fits : ltb 20 (length seen) ≡ false = ground arith in rw fits refl
  fold-outcome (run ∷ runs) d seen few =
      let v = services.get run d.key in
      let rest = column services d.key runs in
      elim (Bool-cases (contains seen v)) [
        | inl c ↦
            ap (fold_runs (check_categorical services) runs)
              (check-known v seen (collecting d seen) refl refl few c)
            ∙ fold-outcome runs d seen few
            ∙ distinct_from-step true d seen v rest c
        | inr c ↦ elim (Bool-cases (ltb 20 (length (seen ++ v ∷ [])))) [
          | inl m ↦
              let grows = distinct_from-grows (seen ++ v ∷ []) rest in
              let many : ltb 20 (length (distinct_from (seen ++ v ∷ []) rest)) ≡ true =
                ground (arith, grows, m) in
              ap (fold_runs (check_categorical services) runs)
                (check-many v seen (collecting d seen) refl refl c m)
              ∙ fold-string runs d
              ∙ outcome-many d (distinct_from (seen ++ v ∷ []) rest) many
              ∙ distinct_from-step false d seen v rest c
          | inr m ↦
              ap (fold_runs (check_categorical services) runs)
                (check-new v seen (collecting d seen) refl refl c m)
              ∙ fold-outcome runs d (seen ++ v ∷ []) (ground arith)
              ∙ distinct_from-step false d seen v rest c
        ]
      ]

  abbrev pub is_assumed : Dimension → Bool
  is_assumed d = is_assumed_categorical d.value_type

  abbrev pub outcome_of : List R → Dimension → Dimension
  outcome_of runs d = outcome d (distinct_from [] (column services d.key runs))

  started-outcome :
      (runs : List R) (d : Dimension)
      → is_assumed d ≡ true
      → fold_runs (check_categorical services) runs (record d { categorical_values = some [] })
        ≡ outcome_of runs d
  started-outcome runs d h =
      let t : d.value_type ≡ assumed_categorical = ground arith in
      ap
        (λ type.
          fold_runs (check_categorical services) runs
            (record d { value_type = type; categorical_values = some [] }))
        t
      ∙ fold-outcome runs d [] (omega arith)

  partition-filter :
      (ds : List Dimension) → (partition is_assumed ds).1 ≡ filter (λ d. not (is_assumed d)) ds
  partition-filter [] = refl
  partition-filter (d ∷ ds) = elim (Bool-cases (is_assumed d)) [
    | inl e ↦ rw e (partition-filter ds)
    | inr e ↦ rw e (ap (d ∷◌) (partition-filter ds))
  ]

  cons-eq : {x y : Dimension} {xs ys : List Dimension} → x ≡ y → xs ≡ ys → (x ∷ xs) ≡ (y ∷ ys)
  cons-eq {x} {y} {xs} {ys} p q = ap (λ d. d ∷ xs) p ∙ ap (λ ds. y ∷ ds) q

  looped-outcome :
      (runs : List R) (ds : List Dimension)
      → map (fold_runs (check_categorical services) runs) (
          map
            (λ (d : Dimension). record d { categorical_values = some [] })
            (partition is_assumed ds).0)
        ≡ map (outcome_of runs) (filter is_assumed ds)
  looped-outcome runs [] = refl
  looped-outcome runs (d ∷ ds) = elim (Bool-cases (is_assumed d)) [
    | inl e ↦ rw e (cons-eq (started-outcome runs d e) (looped-outcome runs ds))
    | inr e ↦ rw e (looped-outcome runs ds)
  ]

  -- The columns that are assumed to be categorical come first, in their order: the categories of
  -- each are the distinct values that the runs have in it, in the order in which they first stand
  -- there; with more than 20 of them it becomes a column of strings without categories. The other
  -- columns follow, unchanged and in their order.
  pub handle_assumed_categorical-outcome :
      (dimensions : List Dimension) (runs : List R)
      → handle_assumed_categorical services dimensions runs
        ≡ map (outcome_of runs) (filter is_assumed dimensions)
          ++ filter (λ d. not (is_assumed d)) dimensions
  unfolding handle_assumed_categorical
  handle_assumed_categorical-outcome dimensions runs =
      ap (λ looped. looped ++ (partition is_assumed dimensions).1)
        (each_run-fold (check_categorical services) runs _ ∙ looped-outcome runs dimensions)
      ∙ ap (λ rest. map (outcome_of runs) (filter is_assumed dimensions) ++ rest)
          (partition-filter dimensions)
