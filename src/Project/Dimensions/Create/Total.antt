-- ===== src/Project/Dimensions/Create/Total.antt =====
-- web/js/pages/project/data/dimensions.js: `createDimensionsFromRuns` does not throw.
use mathlib.Core.Bool
use sigopt_server.Base.{
  ◌≡◌, ◌⊎◌, refl, subst, Bool, true, false, Bool-cases, Option-cases, inl, inr, some, is_some, List,
  [], ◌∷◌, map, All, All-append, arith,
}
use sigopt_server.Project.Dimensions.{
  Field, Dimension, is_categorical, is_assumed_numeric, is_assumed_categorical, partition,
  get_value_type_from_field, create_empty_dimensions_from_defined_fields,
  filter_out_unplottable_dimensions, make_dimension_types_concrete, make_concrete,
}
use sigopt_server.Project.Dimensions.Create.{
  Services, each_run, fill_dimension, fill_dimensions, check_numeric, handle_assumed_numeric,
  check_categorical, handle_assumed_categorical, fill_each, fill_tick_vals, typed_dimensions,
  create_dimensions_from_runs,
}
use sigopt_server.Project.Dimensions.Create.Categories.{
  Categories, Seen, handle_assumed_categorical-Categories,
}

-- Not yet categorical.
abbrev pub IsOpen : Dimension → Type 0
IsOpen d = is_categorical d.value_type ≡ false

All-each_run :
    {R : Type 0} (P : Dimension → Type 0) (f : R → Dimension → Dimension)
    → ((run : R) (d : Dimension) → P d → P (f run d))
    → (runs : List R) (ds : List Dimension) → All P ds
    → All P (each_run f runs ds)
unfolding each_run
All-each_run P f h [] ds hs = hs
All-each_run P f h (run ∷ runs) ds hs = All-each_run P f h runs (map (f run) ds) (stepped ds hs)
  where
    stepped : (ds : List Dimension) → All P ds → All P (map (f run) ds)
    stepped [] hs = tt
    stepped (d ∷ ds) (g, gs) = (h run d g, stepped ds gs)

All-partition :
    (P : Dimension → Type 0) (p : Dimension → Bool) (ds : List Dimension)
    → All P ds
    → All P (partition p ds).0 × All P (partition p ds).1
All-partition P p [] hs = (tt, tt)
All-partition P p (d ∷ ds) (h, hs) =
    let (kept, rest) = All-partition P p ds hs in
    elim (Bool-cases (p d)) [ inl e ↦ rw e ((h, kept), rest) | inr e ↦ rw e (kept, (h, rest)) ]

All-filter_out :
    (P : Dimension → Type 0) (ds : List Dimension)
    → All P ds
    → All P (filter_out_unplottable_dimensions ds)
unfolding filter_out_unplottable_dimensions
All-filter_out P [] hs = tt
All-filter_out P (d ∷ ds) (h, hs) = ground (arith, All-filter_out P ds hs, h)

module _ {R : Type 0} (services : Services R) where
  fill-IsOpen : (run : R) (d : Dimension) → IsOpen d → IsOpen (fill_dimension services run d)
  unfolding fill_dimension
  fill-IsOpen run d h = h

  numeric-IsOpen : (run : R) (d : Dimension) → IsOpen d → IsOpen (check_numeric services run d)
  unfolding check_numeric
  numeric-IsOpen run d h = ground arith

  categorical-IsOpen :
      (run : R) (d : Dimension) → IsOpen d → IsOpen (check_categorical services run d)
  unfolding check_categorical
  categorical-IsOpen run d h = ground arith

  handle_numeric-IsOpen :
      (ds : List Dimension) (runs : List R)
      → All IsOpen ds
      → All IsOpen (handle_assumed_numeric services ds runs)
  unfolding handle_assumed_numeric
  handle_numeric-IsOpen ds runs hs =
      let parts = partition (λ (d : Dimension). is_assumed_numeric d.value_type) ds in
      let split = All-partition IsOpen (λ (d : Dimension). is_assumed_numeric d.value_type) ds hs in
      All-append IsOpen _ parts.1
        (All-each_run IsOpen (check_numeric services) numeric-IsOpen runs parts.0 split.0) split.1

  handle_categorical-IsOpen :
      (ds : List Dimension) (runs : List R)
      → All IsOpen ds
      → All IsOpen (handle_assumed_categorical services ds runs)
  unfolding handle_assumed_categorical
  handle_categorical-IsOpen ds runs hs =
      let parts = partition (λ (d : Dimension). is_assumed_categorical d.value_type) ds in
      let split =
        All-partition IsOpen (λ (d : Dimension). is_assumed_categorical d.value_type) ds hs in
      All-append IsOpen _ parts.1
        (All-each_run IsOpen (check_categorical services) categorical-IsOpen runs _
          (begun parts.0 split.0))
        split.1
    where
      begun :
          (es : List Dimension)
          → All IsOpen es
          → All IsOpen (map (λ (d : Dimension). record d { categorical_values = some [] }) es)
      begun [] gs = tt
      begun (e ∷ es) (g, gs) = (g, begun es gs)

  -- A categorical column has its categories.
  abbrev pub IsReady : Dimension → Type 0
  IsReady d = is_categorical d.value_type ≡ true → is_some d.categorical_values ≡ true

  concrete-IsReady :
      (runs : List R) (ds : List Dimension)
      → All IsOpen ds
      → All
          (λ d. Categories (Seen services runs d) d ⊎ (is_assumed_categorical d.value_type ≡ false))
          ds
      → All IsReady (make_dimension_types_concrete ds)
  unfolding make_dimension_types_concrete make_concrete
  concrete-IsReady runs [] hs gs = tt
  concrete-IsReady runs (d ∷ ds) (h, hs) (g, gs) = (ready g, concrete-IsReady runs ds hs gs)
    where
      ready :
          Categories (Seen services runs d) d ⊎ (is_assumed_categorical d.value_type ≡ false)
          → is_categorical (make_concrete d.value_type) ≡ true
          → is_some d.categorical_values ≡ true
      ready (inl (inl (t, e))) k = ground arith
      ready (inl (inr (t, (vs, e, few, distinct, seen)))) k = rw e refl
      ready (inr n) k = ground arith

  fill_each-total :
      (ds : List Dimension)
      → All (λ d. is_some d.categorical_values ≡ true) ds
      → is_some (fill_each services ds) ≡ true
  unfolding fill_each
  fill_each-total [] hs = refl
  fill_each-total (d ∷ ds) (h, hs) = ground (arith, fill_each-total ds hs, h)

  fill_tick_vals-total :
      (ds : List Dimension) → All IsReady ds → is_some (fill_tick_vals services ds) ≡ true
  unfolding fill_tick_vals
  fill_tick_vals-total ds hs =
      let parts = partition (λ (d : Dimension). is_categorical d.value_type) ds in
      let filled = fill_each-total parts.0 (plotted ds hs) in
      elim (Option-cases (fill_each services parts.0)) [
        | inl e ↦ absurd (Bool.false≢true (subst (λ o. is_some o ≡ true) e filled))
        | inr (out, e) ↦ rw (e, fill_tick_vals) refl
      ]
    where
      plotted :
          (es : List Dimension)
          → All IsReady es
          → All
              (λ d. is_some d.categorical_values ≡ true)
              (partition (λ (d : Dimension). is_categorical d.value_type) es).0
      plotted [] gs = tt
      plotted (e ∷ es) (g, gs) = elim (Bool-cases (is_categorical e.value_type)) [
        | inl c ↦ rw c (g c, plotted es gs)
        | inr c ↦ rw c (plotted es gs)
      ]

  empty-IsOpen :
      (fields : List Field)
      → All (λ field. is_categorical (get_value_type_from_field field) ≡ false) fields
      → All IsOpen (create_empty_dimensions_from_defined_fields fields)
  unfolding create_empty_dimensions_from_defined_fields
  empty-IsOpen [] hs = tt
  empty-IsOpen (field ∷ fields) (h, hs) = (h, empty-IsOpen fields hs)

  typed-IsReady :
      (fields : List Field) (runs : List R)
      → All (λ field. is_categorical (get_value_type_from_field field) ≡ false) fields
      → All IsReady (typed_dimensions services fields runs)
  unfolding typed_dimensions fill_dimensions
  typed-IsReady fields runs hs =
      let empty = create_empty_dimensions_from_defined_fields fields in
      let filled =
        All-each_run IsOpen (fill_dimension services) fill-IsOpen runs empty
          (empty-IsOpen fields hs) in
      let valid = filter_out_unplottable_dimensions (fill_dimensions services empty runs).0 in
      let no_numeric = handle_assumed_numeric services valid runs in
      let opened = handle_numeric-IsOpen valid runs (All-filter_out IsOpen _ filled) in
      concrete-IsReady runs (handle_assumed_categorical services no_numeric runs)
        (handle_categorical-IsOpen no_numeric runs opened)
        (handle_assumed_categorical-Categories services no_numeric runs)

  -- When no field is declared categorical, the dimensions are created without an exception,
  -- whatever the runs: each column that ends up categorical has been given its categories.
  pub create_dimensions_from_runs-total :
      (fields : List Field) (runs : List R)
      → All (λ field. is_categorical (get_value_type_from_field field) ≡ false) fields
      → is_some (create_dimensions_from_runs services fields runs) ≡ true
  unfolding create_dimensions_from_runs
  create_dimensions_from_runs-total fields runs hs =
      let filled =
        fill_tick_vals-total (typed_dimensions services fields runs)
          (typed-IsReady fields runs hs) in
      elim (Option-cases (fill_tick_vals services (typed_dimensions services fields runs))) [
        | inl e ↦ absurd (Bool.false≢true (subst (λ o. is_some o ≡ true) e filled))
        | inr (out, e) ↦ rw (e, create_dimensions_from_runs) refl
      ]
