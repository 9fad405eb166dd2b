-- ===== src/Project/Dimensions/Create/Values.antt =====
-- web/js/pages/project/data/dimensions.js: equality of values, and what the loops give each column.
use text.Mathlib.TextEquality.{eq_iff}
use mathlib.Core.List.{map}
use Prim.Native.String.{String}
use sigopt_server.Base.{
  ℕ, suc, ◌+◌, ◌≡◌, ◌↔◌, ◌∙◌, refl, ap, sym, true, List, [], ◌∷◌, ◌++◌, append_assoc, append-nil,
  ==_iff, arith, if◌then◌else◌,
}
use sigopt_server.Project.Dimensions.{
  Value, undefined, null, number, str, object, same, is_defined_and_not_null, Dimension,
}
use sigopt_server.Project.Dimensions.Create.{Services, each_run, fill_dimension, fill_dimensions}

pub same_iff : (v w : Value) → (same v w ≡ true) ↔ (v ≡ w)
unfolding same
same_iff undefined undefined = ground arith
same_iff undefined null = ground arith
same_iff undefined (number n) = ground arith
same_iff undefined (str t) = ground arith
same_iff undefined (object n) = ground arith
same_iff null undefined = ground arith
same_iff null null = ground arith
same_iff null (number n) = ground arith
same_iff null (str t) = ground arith
same_iff null (object n) = ground arith
same_iff (number m) undefined = ground arith
same_iff (number m) null = ground arith
same_iff (number m) (number n) = ground (arith, ==_iff m n)
same_iff (number m) (str t) = ground arith
same_iff (number m) (object n) = ground arith
same_iff (str s) undefined = ground arith
same_iff (str s) null = ground arith
same_iff (str s) (number n) = ground arith
same_iff (str s) (str t) = ground (arith, eq_iff s t)
same_iff (str s) (object n) = ground arith
same_iff (object m) undefined = ground arith
same_iff (object m) null = ground arith
same_iff (object m) (number n) = ground arith
same_iff (object m) (str t) = ground arith
same_iff (object m) (object n) = ground (arith, ==_iff m n)

unfoldable pub fold_runs :
    {R : Type 0} → (R → Dimension → Dimension) → List R → Dimension → Dimension
fold_runs f [] d = d
fold_runs f (run ∷ runs) d = fold_runs f runs (f run d)

map-map_id : (ds : List Dimension) → map (λ d. d) ds ≡ ds
map-map_id [] = refl
map-map_id (d ∷ ds) = ap (d ∷◌) (map-map_id ds)

map-twice :
    (f g : Dimension → Dimension) (ds : List Dimension) → map g (map f ds) ≡ map (λ d. g (f d)) ds
map-twice f g [] = refl
map-twice f g (d ∷ ds) = ap (g (f d) ∷◌) (map-twice f g ds)

-- The loops can be exchanged: each dimension sees all the runs, in their order.
pub each_run-fold :
    {R : Type 0} (f : R → Dimension → Dimension) (runs : List R) (ds : List Dimension)
    → each_run f runs ds ≡ map (fold_runs f runs) ds
unfolding each_run fold_runs
each_run-fold f [] ds = sym (map-map_id ds)
each_run-fold f (run ∷ runs) ds =
    each_run-fold f runs (map (f run) ds) ∙ map-twice (f run) (fold_runs f runs) ds

abbrev pub count_defined : List Value → ℕ
count_defined [] = 0
count_defined (v ∷ vs) =
    if is_defined_and_not_null v then suc (count_defined vs) else count_defined vs

module _ {R : Type 0} (services : Services R) where
  -- The column of a key: its value in each run.
  abbrev pub column : String → List R → List Value
  column key runs = map (λ run. services.get run key) runs

  abbrev pub filled : List R → Dimension → Dimension
  filled runs d = record d {
    values = d.values ++ column d.key runs;
    count = d.count + count_defined (column d.key runs);
  }

  fold_fill :
      (runs : List R) (d : Dimension) → fold_runs (fill_dimension services) runs d ≡ filled runs d
  unfolding fold_runs fill_dimension
  fold_fill [] d = ground (arith, append-nil d.values)
  fold_fill (run ∷ runs) d =
      fold_fill runs (fill_dimension services run d)
      ∙ (ground (arith, append_assoc d.values (services.get run d.key ∷ []) (column d.key runs)))

  map-ext :
      (f g : Dimension → Dimension)
      → ((d : Dimension) → f d ≡ g d)
      → (ds : List Dimension) → map f ds ≡ map g ds
  map-ext f g h [] = refl
  map-ext f g h (d ∷ ds) = rw (h d, map-ext f g h ds) refl

  -- Each dimension is given the value of its key in each run, in the order of the runs, and the
  -- number of those that are neither undefined nor null; nothing else of it changes.
  pub fill_dimensions-filled :
      (dimensions : List Dimension) (runs : List R)
      → (fill_dimensions services dimensions runs).0 ≡ map (filled runs) dimensions
  unfolding fill_dimensions
  fill_dimensions-filled dimensions runs =
      each_run-fold (fill_dimension services) runs dimensions
      ∙ map-ext _ _ (fold_fill runs) dimensions
