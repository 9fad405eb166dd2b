-- ===== src/Utils/Json.antt =====
-- web/js/utils.js: values as JSON has them, with `undefined`, and the functions that walk them. An
-- object is the sequence of its keys with their values, as `_.keys` lists them.
pub mod Omit
pub mod Condense
pub mod Keys
use Prim.Native.String.{String}
use text.Mathlib.Text.{◌==◌ as str_eq}
use sigopt_server.Base.{
  ℕ, zero, suc, Bool, true, false, not, ◌||◌, Option, none, some, List, [], ◌∷◌, any, if◌then◌else◌,
}

mutual
  pub data Json : Type 0 where
    undefined : Json
    null : Json
    boolean : Bool → Json
    number : ℕ → Json
    str : String → Json
    array : Items → Json
    object : Fields → Json

  pub data Items : Type 0 where
    nil : Items
    cons : Json → Items → Items

  pub data Fields : Type 0 where
    end : Fields
    field : String → Json → Fields → Fields

abbrev pub is_undefined_or_null : Json → Bool
is_undefined_or_null undefined = true
is_undefined_or_null null = true
is_undefined_or_null j = false

unfoldable pub is_nothing : Json → Bool
is_nothing (array nil) = true
is_nothing (array (cons j items)) = false
is_nothing (object end) = true
is_nothing (object (field k j fields)) = false
is_nothing (boolean b) = false
is_nothing (number n) = false
is_nothing (str s) = false
is_nothing undefined = true
is_nothing null = true

unfoldable pub is_not_nothing : Json → Bool
unfolding is_nothing
is_not_nothing j = not (is_nothing j)

-- The object with a further key, which is left out if its value is undefined.
abbrev pub present : String → Json → Fields → Fields
present key undefined fields = fields
present key j fields = field key j fields

-- `_.contains` for keys.
abbrev pub has_key : List String → String → Bool
has_key keys k = any (λ l. str_eq l k) keys

unfoldable mutual
  pub recursively_omit_keys : List String → Json → Json
  recursively_omit_keys keys (array items) = array (omit_items keys items)
  recursively_omit_keys keys (object fields) = object (omit_fields keys fields)
  recursively_omit_keys keys undefined = undefined
  recursively_omit_keys keys null = null
  recursively_omit_keys keys (boolean b) = boolean b
  recursively_omit_keys keys (number n) = number n
  recursively_omit_keys keys (str s) = str s

  pub omit_items : List String → Items → Items
  omit_items keys nil = nil
  omit_items keys (cons j items) = cons (recursively_omit_keys keys j) (omit_items keys items)

  -- `_.omit`, and then the values that are left. An object with a number under `length`, whose
  -- indices `_.each` would visit in place of its keys, is outside the model.
  pub omit_fields : List String → Fields → Fields
  omit_fields keys end = end
  omit_fields keys (field k j fields) =
      let rest = omit_fields keys fields in
      if has_key keys k then rest else field k (recursively_omit_keys keys j) rest

unfoldable mutual
  unfolding is_not_nothing

  pub recursively_condense_object : Json → Json
  recursively_condense_object (array items) = array (condense_items items)
  recursively_condense_object (object fields) = object (condense_fields fields)
  recursively_condense_object undefined = undefined
  recursively_condense_object null = null
  recursively_condense_object (boolean b) = boolean b
  recursively_condense_object (number n) = number n
  recursively_condense_object (str s) = str s

  pub condense_items : Items → Items
  condense_items nil = nil
  condense_items (cons j items) =
      let condensed = recursively_condense_object j in
      let rest = condense_items items in
      if is_not_nothing condensed then cons condensed rest else rest

  pub condense_fields : Fields → Fields
  condense_fields end = end
  condense_fields (field k j fields) =
      let condensed = recursively_condense_object j in
      let rest = condense_fields fields in
      if is_not_nothing condensed then field k condensed rest else rest

-- `object[key]`, or none where the object has no such key.
unfoldable pub field_at : String → Fields → Option Json
field_at k end = none
field_at k (field l j fields) = if str_eq l k then some j else field_at k fields

unfoldable pub item_at : ℕ → Items → Option Json
item_at n nil = none
item_at zero (cons j items) = some j
item_at (suc n) (cons j items) = item_at n items

abbrev pub or_undefined : Option Json → Json
or_undefined none = undefined
or_undefined (some j) = j

-- `fields[key]`.
abbrev pub value_at : String → Fields → Json
value_at k fields = or_undefined (field_at k fields)
