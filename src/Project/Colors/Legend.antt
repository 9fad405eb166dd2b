-- ===== src/Project/Colors/Legend.antt =====
-- web/js/pages/project/analysis/lib/color_dimension.js: the legend of a fixed gradient is that of
-- the points.
use Prim.Native.String.{String}
use sigopt_server.Base.{
  ℕ, zero, suc, ◌%◌, ◌<◌, ◌≡◌, refl, sym, ap, ◌∙◌, arith, true, ◌||◌, Bool-cases, inl, inr, Option,
  some, List, [], ◌∷◌, ◌++◌, length, pos, pos_part,
}
use sigopt_server.Project.Colors.{
  step_of, unique_onto, map_each, position, legend_item, LegendItem, FixedColors, colored,
  create_color_dimension_fixed_gradient, value_shown,
}
use sigopt_server.Project.Gradients.{Gradient, fixed, get_gradient_safely, ColorStep}
use sigopt_server.Project.Dimensions.{Value, contains, index_of_from, same, Dimension}
use sigopt_server.Project.Dimensions.Create.Ticks.{nth, index_of_from-nth, contains-append}
use sigopt_server.Project.Dimensions.Create.Values.{same_iff}

nth-cons :
    {A : Type 0} {B : Type 0} (f : A → Option B) (b : B) (x : A) (bs : List B) (xs : List A)
    → f x ≡ some b
    → ((i : ℕ) (y : A) → nth i xs ≡ some y → nth i bs ≡ f y)
    → (i : ℕ) (y : A) → nth i (x ∷ xs) ≡ some y
    → nth i (b ∷ bs) ≡ f y
nth-cons f b x bs xs found at zero y h = cc
nth-cons f b x bs xs found at (suc i) y h = at i y h

-- What the function finds for each element, the list has at the same place.
map_each-nth :
    {A : Type 0} {B : Type 0} (f : A → Option B) (xs : List A)
    → ((i : ℕ) (x : A) → nth i xs ≡ some x → (b : B) × (f x ≡ some b))
    → (bs : List B) × (map_each f xs ≡ some bs)
      × ((i : ℕ) (x : A) → nth i xs ≡ some x → nth i bs ≡ f x)
map_each-nth f [] h = ([], refl, λ i x e. cc)
map_each-nth f (x ∷ xs) h =
    let (b, found) = h 0 x refl in
    let (bs, all, at) = map_each-nth f xs (λ i. h (suc i)) in
    (b ∷ bs, rw (found, all) refl, nth-cons f b x bs xs found at)

nth-found : {A : Type 0} (k : ℕ) (xs : List A) → k < length xs → (x : A) × (nth k xs ≡ some x)
nth-found k [] h = absurd (omega (arith, h))
nth-found zero (x ∷ xs) h = (x, refl)
nth-found (suc k) (x ∷ xs) h = nth-found k xs (omega (arith, h))

nth-contains : (i : ℕ) (vs : List Value) (v : Value) → nth i vs ≡ some v → contains vs v ≡ true
nth-contains i [] v h = cc
nth-contains zero (w ∷ vs) v h = let equal : w ≡ v = cc in rw ((same_iff w v).1 equal) refl
nth-contains (suc i) (w ∷ vs) v h = ground (arith, nth-contains i vs v h)

kept :
    (result : List Value) (w : Value) (vs : List Value) (v : Value)
    → contains result w ≡ true
    → (contains result v || contains (w ∷ vs) v) ≡ true
    → (contains result v || contains vs v) ≡ true
kept result w vs v known h = elim (Bool-cases (same w v)) [
  | inl equal ↦
      let known_too = ap (contains result) (sym ((same_iff w v).0 equal)) ∙ known in
      ground (arith, known_too)
  | inr other ↦ ground (arith, h, other)
]

added :
    (result : List Value) (w : Value) (vs : List Value) (v : Value)
    → (contains result v || contains (w ∷ vs) v) ≡ true
    → (contains (result ++ w ∷ []) v || contains vs v) ≡ true
added result w vs v h = rw (contains-append result (w ∷ []) v) (ground (arith, h))

contains-unique_onto :
    (result vs : List Value) (v : Value)
    → (contains result v || contains vs v) ≡ true
    → contains (unique_onto result vs) v ≡ true
contains-unique_onto result [] v h = ground (arith, h)
contains-unique_onto result (w ∷ vs) v h = elim (Bool-cases (contains result w)) [
  | inl known ↦ rw known (contains-unique_onto result vs v (kept result w vs v known h))
  | inr new ↦ rw new (contains-unique_onto (result ++ w ∷ []) vs v (added result w vs v h))
]

rank-nth :
    (vs : List Value) (v : Value)
    → contains vs v ≡ true
    → (index_of_from 0 vs v ≡ pos (pos_part (index_of_from 0 vs v)))
      × (nth (pos_part (index_of_from 0 vs v)) vs ≡ some v)
rank-nth vs v h =
    let (k, found, at) = index_of_from-nth 0 vs v h in
    let place : index_of_from 0 vs v ≡ pos k = found ∙ ap pos (omega arith) in rw place (refl, at)

step_of-found :
    (steps : List ColorStep) (vs : List Value) (v : Value)
    → 0 < length steps
    → contains vs v ≡ true
    → (step : ColorStep) × (step_of steps vs v ≡ some step)
      × (nth (pos_part (index_of_from 0 vs v) % length steps) steps ≡ some step)
step_of-found steps vs v some_step h =
    let (e, at) = rank-nth vs v h in
    let (step, found) =
      nth-found (pos_part (index_of_from 0 vs v) % length steps) steps (omega (arith, some_step)) in
    (step, rw e found, found)

-- The points and the legend agree.
abbrev pub Agrees : Dimension → List ColorStep → FixedColors → Type 0
Agrees dim steps colors =
    (rank : Value → ℕ) × ((i : ℕ) (v : Value)
      → nth i dim.values ≡ some v
      → (at : ℕ) × (hue : String) × (nth (rank v % length steps) steps ≡ some (at, hue))
        × (nth i colors.color ≡ some at)
        × (nth (rank v) colors.items ≡ some (record { color = hue; value = value_shown v })))
    × ((i j : ℕ) (v w : Value)
        → nth i dim.values ≡ some v
        → nth j dim.values ≡ some w
        → rank v ≡ rank w
        → v ≡ w)

module _ (dim : Dimension) (steps : List ColorStep) (some_step : 0 < length steps) where
  abbrev unique_vals : List Value
  unique_vals = unique_onto [] dim.values

  abbrev rank : Value → ℕ
  rank v = pos_part (index_of_from 0 unique_vals v)

  value-contains : (i : ℕ) (v : Value) → nth i dim.values ≡ some v → contains unique_vals v ≡ true
  value-contains i v h = contains-unique_onto [] dim.values v (nth-contains i dim.values v h)

  position-found :
      (v : Value)
      → contains unique_vals v ≡ true
      → (at : ℕ) × (position (step_of steps unique_vals v) ≡ some at)
  position-found v h =
      let ((at, hue), found, place) = step_of-found steps unique_vals v some_step h in
      (at, rw found refl)

  legend_item-found :
      (v : Value)
      → contains unique_vals v ≡ true
      → (item : LegendItem) × (legend_item v (step_of steps unique_vals v) ≡ some item)
  legend_item-found v h =
      let ((at, hue), found, place) = step_of-found steps unique_vals v some_step h in
      (record { color = hue; value = value_shown v }, rw found refl)

  rank-injective :
      (i j : ℕ) (v w : Value)
      → nth i dim.values ≡ some v
      → nth j dim.values ≡ some w
      → rank v ≡ rank w
      → v ≡ w
  rank-injective i j v w h k e =
      let first = (rank-nth unique_vals v (value-contains i v h)).1 in
      let second = (rank-nth unique_vals w (value-contains j w k)).1 in
      let both : some v ≡ some w = sym first ∙ (ap (λ n. nth n unique_vals) e ∙ second) in cc

  colored-Agrees :
      (colors : FixedColors) × (colored dim steps ≡ some colors) × Agrees dim steps colors
  colored-Agrees =
      let (color, color_found, color_at) =
        map_each-nth (λ v. position (step_of steps unique_vals v)) dim.values
          (λ i v h. position-found v (value-contains i v h)) in
      let (items, items_found, item_at) =
        map_each-nth (λ v. legend_item v (step_of steps unique_vals v)) unique_vals
          (λ i v h. legend_item-found v (nth-contains i unique_vals v h)) in
      let colors : FixedColors = record {
        color = color;
        colorscale = steps;
        title = dim.display_name;
        items = items;
      } in
      (
        colors,
        rw (color_found, items_found) refl,
        (
          rank,
          (λ i v h.
              let known = value-contains i v h in
              let ((at, hue), found, place) = step_of-found steps unique_vals v some_step known in
              (
                at,
                hue,
                place,
                color_at i v h ∙ ap position found,
                item_at (rank v) v (rank-nth unique_vals v known).1 ∙ ap (legend_item v) found,
              )),
          rank-injective,
        ),
      )

-- With a gradient that has a step, a dimension is colored, and the points and the legend agree:
-- every value that the dimension has belongs to a place of the legend, different values to
-- different places; the item there shows the value, or None for null and undefined, in the color of
-- the gradient's step with the number of the place, counted around. A point of this value has the
-- position of that step.
pub create_color_dimension_fixed_gradient-Agrees :
    (dim : Dimension) (key : String) (g : Gradient)
    → get_gradient_safely fixed key ≡ some g
    → 0 < length g.steps
    → (colors : FixedColors) × (create_color_dimension_fixed_gradient dim key ≡ some colors)
      × Agrees dim g.steps colors
unfolding create_color_dimension_fixed_gradient
create_color_dimension_fixed_gradient-Agrees dim key g known some_step =
    rw known (colored-Agrees dim g.steps some_step)
