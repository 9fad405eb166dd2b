-- ===== src/Project/Dimensions/Create.antt =====
-- web/js/pages/project/data/dimensions.js: the loops over the runs, and `createDimensionsFromRuns`.
pub mod Values
pub mod Categories
pub mod Outcome
pub mod Ticks
pub mod Total
use Prim.Native.String.{String}
use sigopt_server.Base.{
  ℕ, zero, suc, ◌+◌, ltb, Bool, not, ◌&&◌, Option, none, some, is_some, get_or, List, [], ◌∷◌, ◌++◌,
  map, length, if◌then◌else◌,
}
use sigopt_server.Project.Dimensions.{
  Value, is_defined_and_not_null, is_number, contains, index_of_from, string, is_assumed_numeric,
  assumed_categorical, is_assumed_categorical, is_categorical, Field, Dimension,
  create_empty_dimensions_from_defined_fields, NumberMap, put, invert, max_categorical_values,
  partition, make_dimension_types_concrete, filter_out_unplottable_dimensions,
}

-- `_.each` over the runs with, inside, `_.each` over the dimensions.
unfoldable pub each_run :
    {R : Type 0} → (R → Dimension → Dimension) → List R → List Dimension → List Dimension
each_run f [] dimensions = dimensions
each_run f (run ∷ runs) dimensions = each_run f runs (map (f run) dimensions)

abbrev pub number_from : ℕ → ℕ → List ℕ
number_from i zero = []
number_from i (suc n) = i ∷ number_from (suc i) n

-- What the operations are given: lodash's `get`, and the built-in functions named above.
pub record Services (R : Type 0) : Type 0 where
  pub id_of : R → ℕ
  pub get : R → String → Value
  pub is_nan : Value → Bool
  pub sort_by_number : List Value → List Value
  pub sort_reversed : List Value → List Value
  pub to_string : Value → String

-- The first `if` of the loop of `handleAssumedCategorical`.
abbrev pub collect : Value → Dimension → Dimension
collect value d =
    if is_assumed_categorical d.value_type && not (contains (get_or d.categorical_values []) value)
    then record d { categorical_values = some (get_or d.categorical_values [] ++ value ∷ []) }
    else d

-- The second `if`: a dimension with too many values is one of strings.
abbrev pub give_up : Dimension → Dimension
give_up d =
    if is_some d.categorical_values
      && ltb max_categorical_values (length (get_or d.categorical_values []))
    then record d { value_type = string; categorical_values = none }
    else d

module _ {R : Type 0} (services : Services R) where
  unfoldable pub fill_dimension : R → Dimension → Dimension
  fill_dimension run d =
      let value = services.get run d.key in
      record d {
        count = if is_defined_and_not_null value then d.count + 1 else d.count;
        values = d.values ++ value ∷ [];
      }

  -- The `idIndexMap` of `fillDimensions`, from the run with this index on.
  unfoldable pub index_ids : ℕ → List R → NumberMap → NumberMap
  unfolding put
  index_ids index [] id_index_map = id_index_map
  index_ids index (run ∷ runs) id_index_map =
      index_ids (suc index) runs (put (services.id_of run) index id_index_map)

  unfoldable pub fill_dimensions : List Dimension → List R → List Dimension × NumberMap
  unfolding fill_dimension each_run index_ids
  fill_dimensions empty_dimensions runs =
      (each_run fill_dimension runs empty_dimensions, index_ids 0 runs [])

  pub check_numeric : R → Dimension → Dimension
  check_numeric run d =
      let value = services.get run d.key in
      if not (is_number value) && is_defined_and_not_null value
      then record d { value_type = assumed_categorical; categorical_values = some [] }
      else d

  unfoldable pub handle_assumed_numeric : List Dimension → List R → List Dimension
  unfolding each_run check_numeric
  handle_assumed_numeric dimensions runs =
      let (assumed, rest) =
        partition (λ (d : Dimension). is_assumed_numeric d.value_type) dimensions in
      each_run check_numeric runs assumed ++ rest

  pub check_categorical : R → Dimension → Dimension
  check_categorical run d = give_up (collect (services.get run d.key) d)

  unfoldable pub handle_assumed_categorical : List Dimension → List R → List Dimension
  unfolding each_run check_categorical
  handle_assumed_categorical dimensions runs =
      let (assumed, rest) =
        partition (λ (d : Dimension). is_assumed_categorical d.value_type) dimensions in
      each_run check_categorical runs
        (map (λ (d : Dimension). record d { categorical_values = some [] }) assumed)
      ++ rest

  pub sort_dim_categorical_values : List Value → List Value
  sort_dim_categorical_values values =
      let (numbers, rest) = partition (λ v. not (services.is_nan v)) values in
      let (strings, nulls) = partition is_defined_and_not_null rest in
      nulls ++ (services.sort_reversed strings ++ services.sort_by_number numbers)

  pub fill_ticks : List Value → Dimension → Dimension
  unfolding sort_dim_categorical_values index_of_from
  fill_ticks categorical_values d =
      let dim_values = sort_dim_categorical_values categorical_values in
      record d {
        ticks = some (record {
          tickvals = number_from 0 (length categorical_values);
          ticktext = map services.to_string dim_values;
          plotly_values = map (index_of_from 0 dim_values) d.values;
        });
      }

  -- The loop of `fillTickVals`; a dimension with no categorical values throws: none.
  unfoldable pub fill_each : List Dimension → Option (List Dimension)
  unfolding fill_ticks
  fill_each [] = some []
  fill_each (d ∷ dimensions) =
      let rest = fill_each dimensions in
      elim d.categorical_values [
        | none ↦ none
        | some vs ↦ elim rest [ none ↦ none | some filled ↦ some (fill_ticks vs d ∷ filled) ]
      ]

  unfoldable pub fill_tick_vals : List Dimension → Option (List Dimension)
  unfolding fill_each
  fill_tick_vals dimensions =
      let (plotted, rest) = partition (λ (d : Dimension). is_categorical d.value_type) dimensions in
      elim (fill_each plotted) [ none ↦ none | some filled ↦ some (filled ++ rest) ]

  pub record Created : Type 0 where
    pub dimensions : List Dimension
    pub id_index_map : NumberMap
    pub index_id_map : NumberMap

  -- The dimensions before their ticks are filled in.
  unfoldable pub typed_dimensions : List Field → List R → List Dimension
  unfolding create_empty_dimensions_from_defined_fields fill_dimensions handle_assumed_numeric
      handle_assumed_categorical make_dimension_types_concrete filter_out_unplottable_dimensions
  typed_dimensions defined_fields runs =
      let empty = create_empty_dimensions_from_defined_fields defined_fields in
      let valid = filter_out_unplottable_dimensions (fill_dimensions empty runs).0 in
      let no_numeric = handle_assumed_numeric valid runs in
      make_dimension_types_concrete (handle_assumed_categorical no_numeric runs)

  -- `createDimensionsFromRuns`, without the `_.indexBy` of the dimensions by their key.
  unfoldable pub create_dimensions_from_runs : List Field → List R → Option Created
  unfolding typed_dimensions fill_tick_vals fill_dimensions invert
  create_dimensions_from_runs defined_fields runs =
      elim (fill_tick_vals (typed_dimensions defined_fields runs)) [
        | none ↦ none
        | some dimensions ↦
            let id_index_map = index_ids 0 runs [] in
            some (record {
              dimensions = dimensions;
              id_index_map = id_index_map;
              index_id_map = invert id_index_map;
            })
      ]
