-- ===== src/Project/Dimensions/Create/Ticks.antt =====
-- web/js/pages/project/data/dimensions.js: the labels of the ticks of a categorical column.
use Prim.Native.String.{String}
use sigopt_server.Base.{
  ℕ, zero, suc, ◌+◌, ◌≡◌, ◌∙◌, refl, ap, Bool, true, not, ◌||◌, Option, none, some, List, [], ◌∷◌,
  ◌++◌, map, ℤ, pos, negsuc, Bool-cases, inl, inr, arith, All,
}
use sigopt_server.Project.Dimensions.{
  Value, same, contains, Dimension, partition, index_of_from, is_defined_and_not_null, Ticks,
}
use sigopt_server.Project.Dimensions.Create.{Services, sort_dim_categorical_values, fill_ticks}
use sigopt_server.Project.Dimensions.Create.Values.{same_iff}

pub contains-append :
    (vs ws : List Value) (v : Value) → contains (vs ++ ws) v ≡ (contains vs v || contains ws v)
contains-append [] ws v = refl
contains-append (u ∷ vs) ws v = ground (arith, contains-append vs ws v)

contains-partition :
    (p : Value → Bool) (vs : List Value) (v : Value)
    → contains vs v ≡ (contains (partition p vs).0 v || contains (partition p vs).1 v)
contains-partition p [] v = refl
contains-partition p (u ∷ vs) v = ground (arith, contains-partition p vs v)

abbrev pub nth : {A : Type 0} → ℕ → List A → Option A
nth n [] = none
nth zero (x ∷ xs) = some x
nth (suc n) (x ∷ xs) = nth n xs

-- The tick label that an index stands for.
abbrev pub label_at : List String → ℤ → Option String
label_at labels (pos i) = nth i labels
label_at labels (negsuc i) = none

pub index_of_from-nth :
    (i : ℕ) (vs : List Value) (v : Value)
    → contains vs v ≡ true
    → (k : ℕ) × (index_of_from i vs v ≡ pos (i + k)) × (nth k vs ≡ some v)
unfolding index_of_from
index_of_from-nth i [] v h = cc
index_of_from-nth i (w ∷ vs) v h = elim (Bool-cases (same w v)) [
  | inl e ↦ (0, rw e (ap pos (omega arith)), ap some ((same_iff w v).0 e))
  | inr e ↦
      let (k, found, at) = index_of_from-nth (suc i) vs v (ground arith) in
      (suc k, rw e (found ∙ ap pos (omega arith)), at)
]

nth-map :
    {A : Type 0} {B : Type 0} (f : A → B) (k : ℕ) (xs : List A) (x : A)
    → nth k xs ≡ some x
    → nth k (map f xs) ≡ some (f x)
nth-map f k [] x h = cc
nth-map f zero (y ∷ xs) x h = let equal : y ≡ x = cc in ap (λ z. some (f z)) equal
nth-map f (suc k) (y ∷ xs) x h = nth-map f k xs x h

index_of_from-label_at :
    (f : Value → String) (i : ℕ) (vs : List Value) (v : Value)
    → contains vs v ≡ true
    → (k : ℕ) × (index_of_from i vs v ≡ pos (i + k)) × (nth k (map f vs) ≡ some (f v))
index_of_from-label_at f i vs v h =
    let (k, found, at) = index_of_from-nth i vs v h in (k, found, nth-map f k vs v at)

module _ {R : Type 0} (services : Services R)
    (sort_by_number-contains : (vs : List Value) (v : Value)
      → contains (services.sort_by_number vs) v ≡ contains vs v)
    (sort_reversed-contains : (vs : List Value) (v : Value)
      → contains (services.sort_reversed vs) v ≡ contains vs v) where
  sort-contains :
      (vs : List Value) (v : Value)
      → contains (sort_dim_categorical_values services vs) v ≡ contains vs v
  unfolding sort_dim_categorical_values
  sort-contains vs v =
      let (numbers, rest) = partition (λ v. not (services.is_nan v)) vs in
      let (strings, nulls) = partition is_defined_and_not_null rest in
      ground (
        arith,
        contains-append nulls (services.sort_reversed strings ++ services.sort_by_number numbers) v,
        contains-append (services.sort_reversed strings) (services.sort_by_number numbers) v,
        sort_by_number-contains numbers v,
        sort_reversed-contains strings v,
        contains-partition (λ v. not (services.is_nan v)) vs v,
        contains-partition is_defined_and_not_null rest v,
      )

  labels :
      (vs column : List Value)
      → All (λ v. contains vs v ≡ true) column
      → let sorted = sort_dim_categorical_values services vs in
        map (label_at (map services.to_string sorted)) (map (index_of_from 0 sorted) column)
        ≡ map (λ v. some (services.to_string v)) column
  labels vs [] h = refl
  labels vs (v ∷ column) (h, hs) =
      let sorted = sort_dim_categorical_values services vs in
      let (k, found, label) =
        index_of_from-label_at services.to_string 0 sorted v (sort-contains vs v ∙ h) in
      rw (found ∙ ap pos (let e : 0 + k ≡ k = omega arith in e), labels vs column hs)
        (ap (◌∷ map (λ v. some (services.to_string v)) column) label)

  -- When the values of a column are among its categories, the label of the tick at which each
  -- value is plotted is that value as a text, if the two sorts keep the members of what they sort.
  pub fill_ticks-labels :
      (vs : List Value) (d : Dimension)
      → All (λ v. contains vs v ≡ true) d.values
      → (r : Ticks) × ((fill_ticks services vs d).ticks ≡ some r)
        × (map (label_at r.ticktext) r.plotly_values
            ≡ map (λ v. some (services.to_string v)) d.values)
  unfolding fill_ticks
  fill_ticks-labels vs d h = (_, refl, labels vs d.values h)
