-- ===== src/Project/Dimensions.antt =====
-- web/js/pages/project/data/dimensions.js: the columns of the runs' table that can be plotted.
-- What underscore's collection functions do is taken from their documentation. `get` (lodash's),
-- `isNaN`, `_.sortBy(…, Number)`, `sort().reverse()` and `String` are parameters. The source changes
-- the dimensions in place; no two of them are one object, so a changed copy stands for each. The
-- keys of dimensions and the types of fields are ASCII. NaN is left out of the values.
pub mod Create
pub mod Maps
use Prim.Native.String.{String}
use Prim.Native.Char.{code}
use text.Mathlib.Text.{◌==◌ as str_eq}
use sigopt_server.Base.{
  ℕ, suc, ◌+◌, ◌-◌, ◌==◌, ltb, leb, Bool, true, false, not, ◌&&◌, ◌||◌, Option, none, some, is_some,
  List, [], ◌∷◌, ◌++◌, map, length, any, ℤ, pos, negsuc, if◌then◌else◌,
}

abbrev pub codes : String → List ℕ
codes String.[] = []
codes (String.◌∷◌ c s) = code c ∷ codes s

-- A value of a run; a number or another value stands by an identity, for `===`.
pub data Value : Type 0 where
  undefined null : Value
  number : ℕ → Value
  str : String → Value
  object : ℕ → Value

-- `===`.
unfoldable pub same : Value → Value → Bool
same undefined undefined = true
same null null = true
same (number m) (number n) = m == n
same (str s) (str t) = str_eq s t
same (object m) (object n) = m == n
same v w = false

abbrev pub is_defined_and_not_null : Value → Bool
is_defined_and_not_null undefined = false
is_defined_and_not_null null = false
is_defined_and_not_null v = true

abbrev pub is_number : Value → Bool
is_number (number n) = true
is_number v = false

-- `_.contains`.
abbrev pub contains : List Value → Value → Bool
contains vs v = any (λ w. same w v) vs

-- `indexOf`, counted from `i`.
unfoldable pub index_of_from : ℕ → List Value → Value → ℤ
index_of_from i [] v = negsuc 0
index_of_from i (w ∷ vs) v = if same w v then pos i else index_of_from (suc i) vs v

pub data GroupType : Type 0 where
  parameter metric other metadata : GroupType

-- The two types that are only assumed stand beside the final ones.
pub data ValueType : Type 0 where
  categorical string id numeric boolean timestamp assumed_numeric assumed_categorical : ValueType

abbrev pub is_assumed_numeric : ValueType → Bool
is_assumed_numeric assumed_numeric = true
is_assumed_numeric t = false

abbrev pub is_assumed_categorical : ValueType → Bool
is_assumed_categorical assumed_categorical = true
is_assumed_categorical t = false

abbrev pub is_categorical : ValueType → Bool
is_categorical categorical = true
is_categorical t = false

pub record Field : Type 0 where
  pub key : String
  pub name : String
  pub field_type : String

pub record Ticks : Type 0 where
  pub tickvals : List ℕ
  pub ticktext : List String
  pub plotly_values : List ℤ

pub record Dimension : Type 0 where
  pub display_name : String
  pub key : String
  pub value_type : ValueType
  pub group_type : GroupType
  pub values : List Value
  pub count : ℕ
  pub categorical_values : Option (List Value)
  pub ticks : Option Ticks

-- `key.split(".")[0]`.
unfoldable pub first_segment : List ℕ → List ℕ
first_segment [] = []
first_segment (c ∷ cs) = if c == b'.' then [] else c ∷ first_segment cs

unfoldable pub same_codes : List ℕ → List ℕ → Bool
same_codes [] [] = true
same_codes (c ∷ cs) (d ∷ ds) = c == d && same_codes cs ds
same_codes cs ds = false

unfoldable pub group_of : List ℕ → GroupType
unfolding same_codes
group_of segment =
    if same_codes segment (codes "assignments")
    then parameter
    else if same_codes segment (codes "values")
    then metric
    else if same_codes segment (codes "metadata")
    then metadata
    else other

pub create_empty_dimension : String → String → ValueType → Dimension
unfolding group_of first_segment
create_empty_dimension key display_name value_type = record {
  display_name = display_name;
  key = key;
  value_type = value_type;
  group_type = group_of (first_segment (codes key));
  values = [];
  count = 0;
  categorical_values = none;
  ticks = none;
}

-- `toUpperCase`.
unfoldable pub upper : List ℕ → List ℕ
upper [] = []
upper (c ∷ cs) = (if leb b'a' c && leb c b'z' then c - 32 else c) ∷ upper cs

-- `DIMENSION_VALUE_TYPES[name]`; STRING counts as assumed categorical, and no entry as assumed
-- numeric.
unfoldable pub declared_type : List ℕ → ValueType
unfolding same_codes
declared_type name =
    if same_codes name (codes "CATEGORICAL")
    then categorical
    else if same_codes name (codes "STRING")
    then assumed_categorical
    else if same_codes name (codes "ID")
    then id
    else if same_codes name (codes "NUMERIC")
    then numeric
    else if same_codes name (codes "BOOLEAN")
    then boolean
    else if same_codes name (codes "TIMESTAMP")
    then timestamp
    else assumed_numeric

unfoldable pub get_value_type_from_field : Field → ValueType
unfolding declared_type upper
get_value_type_from_field field =
    if str_eq field.key "experiment"
    then assumed_categorical
    else declared_type (upper (codes field.field_type))

unfoldable pub create_empty_dimensions_from_defined_fields : List Field → List Dimension
unfolding create_empty_dimension get_value_type_from_field
create_empty_dimensions_from_defined_fields [] = []
create_empty_dimensions_from_defined_fields (field ∷ fields) =
    create_empty_dimension field.key field.name (get_value_type_from_field field)
    ∷ create_empty_dimensions_from_defined_fields fields

-- An object with numbers for keys.
abbrev pub NumberMap : Type 0
NumberMap = List (ℕ × ℕ)

unfoldable pub lookup : {V : Type 0} → ℕ → List (ℕ × V) → Option V
lookup k [] = none
lookup k ((j, v) ∷ m) = if j == k then some v else lookup k m

unfoldable pub put : {V : Type 0} → ℕ → V → List (ℕ × V) → List (ℕ × V)
put k v [] = (k, v) ∷ []
put k v ((j, w) ∷ m) = if j == k then (k, v) ∷ m else (j, w) ∷ put k v m

-- `_.invert`: of two keys with one value the later counts.
unfoldable pub invert : NumberMap → NumberMap
unfolding put
invert [] = []
invert ((k, v) ∷ m) =
    let rest = invert m in elim (lookup v rest) [ none ↦ put v k rest | some later ↦ rest ]

abbrev pub max_categorical_values : ℕ
max_categorical_values = 20

abbrev pub partition : {A : Type 0} → (A → Bool) → List A → List A × List A
partition p [] = ([], [])
partition p (x ∷ xs) =
    let (kept, rest) = partition p xs in if p x then (x ∷ kept, rest) else (kept, x ∷ rest)

pub make_concrete : ValueType → ValueType
make_concrete assumed_numeric = numeric
make_concrete assumed_categorical = categorical
make_concrete t = t

unfoldable pub make_dimension_types_concrete : List Dimension → List Dimension
unfolding make_concrete
make_dimension_types_concrete dimensions =
    map (λ (d : Dimension). record d { value_type = make_concrete d.value_type }) dimensions

abbrev pub is_removed_column : String → Bool
is_removed_column key =
    str_eq key "favorite"
    || (str_eq key "logs.stdout.content"
        || (str_eq key "logs.stderr.content" || str_eq key "source_code.content"))

unfoldable pub filter_out_unplottable_dimensions : List Dimension → List Dimension
filter_out_unplottable_dimensions [] = []
filter_out_unplottable_dimensions (d ∷ dimensions) =
    let rest = filter_out_unplottable_dimensions dimensions in
    if not (is_removed_column d.key) && ltb 0 d.count then d ∷ rest else rest
