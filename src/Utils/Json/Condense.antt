-- ===== src/Utils/Json/Condense.antt =====
-- web/js/utils.js: what recursivelyCondenseObject leaves of a value.
use sigopt_server.Base.{◌≡◌, ◌↔◌, subst, refl, ap, true, Bool-cases, inl, inr}
use sigopt_server.Utils.Json.{
  Json, undefined, null, boolean, number, str, array, object, Items, nil, cons, Fields, end, field,
  is_not_nothing, recursively_condense_object, condense_items, condense_fields,
}

-- No value anywhere inside is undefined, null, an empty array or an empty object.
mutual
  pub IsCondensed : Json → Type 0
  IsCondensed (array items) = AreCondensed items
  IsCondensed (object fields) = HaveCondensed fields
  IsCondensed undefined = Unit
  IsCondensed null = Unit
  IsCondensed (boolean b) = Unit
  IsCondensed (number n) = Unit
  IsCondensed (str s) = Unit

  pub AreCondensed : Items → Type 0
  AreCondensed nil = Unit
  AreCondensed (cons j items) = (is_not_nothing j ≡ true) × (IsCondensed j × AreCondensed items)

  pub HaveCondensed : Fields → Type 0
  HaveCondensed end = Unit
  HaveCondensed (field k j fields) =
      (is_not_nothing j ≡ true) × (IsCondensed j × HaveCondensed fields)

mutual
  unfolding recursively_condense_object IsCondensed

  IsCondensed-walk : (j : Json) → IsCondensed (recursively_condense_object j)
  IsCondensed-walk (array items) = condense_items-AreCondensed items
  IsCondensed-walk (object fields) = condense_fields-HaveCondensed fields
  IsCondensed-walk undefined = tt
  IsCondensed-walk null = tt
  IsCondensed-walk (boolean b) = tt
  IsCondensed-walk (number n) = tt
  IsCondensed-walk (str s) = tt

  condense_items-AreCondensed : (items : Items) → AreCondensed (condense_items items)
  condense_items-AreCondensed nil = tt
  condense_items-AreCondensed (cons j items) =
      elim (Bool-cases (is_not_nothing (recursively_condense_object j))) [
        | inl kept ↦ rw kept (kept, (IsCondensed-walk j, condense_items-AreCondensed items))
        | inr gone ↦ rw gone (condense_items-AreCondensed items)
      ]

  condense_fields-HaveCondensed : (fields : Fields) → HaveCondensed (condense_fields fields)
  condense_fields-HaveCondensed end = tt
  condense_fields-HaveCondensed (field k j fields) =
      elim (Bool-cases (is_not_nothing (recursively_condense_object j))) [
        | inl kept ↦ rw kept (kept, (IsCondensed-walk j, condense_fields-HaveCondensed fields))
        | inr gone ↦ rw gone (condense_fields-HaveCondensed fields)
      ]

mutual
  unfolding recursively_condense_object IsCondensed

  condensed_again : (j : Json) → IsCondensed j → recursively_condense_object j ≡ j
  condensed_again (array items) h = ap array (items_again items h)
  condensed_again (object fields) h = ap object (fields_again fields h)
  condensed_again undefined h = refl
  condensed_again null h = refl
  condensed_again (boolean b) h = refl
  condensed_again (number n) h = refl
  condensed_again (str s) h = refl

  items_again : (items : Items) → AreCondensed items → condense_items items ≡ items
  items_again nil h = refl
  items_again (cons j items) h =
      rw (condensed_again j h.1.0, h.0) (ap (cons j) (items_again items h.1.1))

  fields_again : (fields : Fields) → HaveCondensed fields → condense_fields fields ≡ fields
  fields_again end h = refl
  fields_again (field k j fields) h =
      rw (condensed_again j h.1.0, h.0) (ap (field k j) (fields_again fields h.1.1))

-- In the result of recursivelyCondenseObject no value inside is undefined, null or empty, and it is
-- the value itself exactly if that holds of the value already.
pub recursively_condense_object-IsCondensed :
    (j : Json)
    → IsCondensed (recursively_condense_object j)
      × (IsCondensed j ↔ (recursively_condense_object j ≡ j))
recursively_condense_object-IsCondensed j =
    (IsCondensed-walk j, (condensed_again j, λ e. subst IsCondensed e (IsCondensed-walk j)))
