-- ===== src/Utils/Json/Omit.antt =====
-- web/js/utils.js: what recursivelyOmitKeys leaves of a value.
use Prim.Native.String.{String}
use text.Mathlib.TextEquality.{eq_iff}
use sigopt_server.Base.{
  ℕ, ◌≡◌, Bool, true, false, ◌||◌, Option, none, some, List, [], ◌∷◌, arith, if◌then◌else◌,
}
use sigopt_server.Utils.Json.{
  Json, number, array, object, Items, nil, cons, Fields, end, field, has_key, recursively_omit_keys,
  omit_fields, field_at, item_at, value_at,
}

-- A step from a value into one of its parts.
pub data Step : Type 0 where
  key : String → Step
  index : ℕ → Step

-- What `value[step]` holds, if the value has such a part.
abbrev pub part : Step → Json → Option Json
part (key k) (object fields) = field_at k fields
part (index n) (array items) = item_at n items
part s j = none

abbrev is_number : Json → Bool
is_number (number n) = true
is_number j = false

abbrev pub at : List Step → Json → Option Json
at [] j = some j
at (s ∷ path) j = elim (part s j) [ none ↦ none | some i ↦ at path i ]

abbrev pub is_omitted : List String → Step → Bool
is_omitted keys (key k) = has_key keys k
is_omitted keys (index n) = false

abbrev pub then_omit : List String → Option Json → Option Json
then_omit keys none = none
then_omit keys (some j) = some (recursively_omit_keys keys j)

pub field_at-omit_fields :
    (keys : List String) (k : String) (fields : Fields)
    → field_at k (omit_fields keys fields)
      ≡ (if has_key keys k then none else then_omit keys (field_at k fields))
unfolding field_at recursively_omit_keys
field_at-omit_fields keys k end = ground arith
field_at-omit_fields keys k (field l j fields) =
    ground (arith, eq_iff l k, field_at-omit_fields keys k fields)

unfoldable mutual
  unfolding field_at

  -- Somewhere in the value an object has a number under `length`.
  pub has_length : Json → Bool
  has_length (array items) = items_have_length items
  has_length (object fields) = is_number (value_at "length" fields) || fields_have_length fields
  has_length j = false

  pub items_have_length : Items → Bool
  items_have_length nil = false
  items_have_length (cons j items) = has_length j || items_have_length items

  pub fields_have_length : Fields → Bool
  fields_have_length end = false
  fields_have_length (field k j fields) = has_length j || fields_have_length fields
