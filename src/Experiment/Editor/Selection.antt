-- ===== src/Experiment/Editor/Selection.antt =====
-- web/js/experiment/conditionals/input.js: the conditions of a parameter, changed through
-- `setParameter`, and the field that selects the parameters of a value.
use Prim.Native.String.{String}
use text.Mathlib.Text.{◌==◌ as str_eq}
use sigopt_server.Base.{
  true, Bool, false, not, ◌||◌, Option, none, some, is_some, List, [], ◌∷◌, ◌++◌, map, filter,
  if◌then◌else◌,
}
use sigopt_server.Experiment.Model.{
  Conditions, Parameter, ConditionalValue, Conditional, ExperimentInput,
}
use sigopt_server.Experiment.Editor.{set_parameter, omit_condition}
use sigopt_server.Utils.Json.{has_key}

-- `conditions[key]`, or none where `_.has(conditions, key)` is false.
unfoldable pub values_of : String → Conditions → Option (List String)
values_of key [] = none
values_of key ((k, values) ∷ conditions) =
    if str_eq k key then some values else values_of key conditions

-- `_.without`.
abbrev pub without : List String → String → List String
without values value = filter (λ v. not (str_eq v value)) values

-- `_.mapObject` at one key.
abbrev pub change_at : String → (List String → List String) → Conditions → Conditions
change_at key f conditions =
    map (λ (k, values). (k, if str_eq k key then f values else values)) conditions

unfoldable pub with_condition : String → String → Conditions → Conditions
unfolding values_of
with_condition key value conditions =
    if is_some (values_of key conditions)
    then change_at key (λ values. without values value ++ (value ∷ [])) conditions
    else conditions ++ ((key, value ∷ []) ∷ [])

unfoldable pub without_condition : String → String → Conditions → Conditions
unfolding values_of
without_condition key value conditions = elim (values_of key conditions) [
  | none ↦ conditions
  | some values ↦ elim (without values value) [
    | [] ↦ omit_condition key conditions
    | v ∷ vs ↦ change_at key (λ w. v ∷ vs) conditions
  ]
]

unfoldable pub on_add_condition :
    Conditional → ConditionalValue → Parameter → ExperimentInput → ExperimentInput
on_add_condition conditional value input e =
    set_parameter input
      (λ p. record p {
        conditions = with_condition conditional.edit_key value.edit_key p.conditions;
      })
      e

unfoldable pub on_remove_condition :
    Conditional → ConditionalValue → Parameter → ExperimentInput → ExperimentInput
on_remove_condition conditional value input e =
    set_parameter input
      (λ p. record p {
        conditions = without_condition conditional.edit_key value.edit_key p.conditions;
      })
      e

-- Whether the parameter has the condition, as in `getSelected`.
unfoldable pub is_selected : Conditional → ConditionalValue → Parameter → Bool
unfolding values_of
is_selected conditional value p = elim (values_of conditional.edit_key p.conditions) [
  | none ↦ false
  | some values ↦ has_key values value.edit_key
]

unfoldable pub get_selected : Conditional → ConditionalValue → ExperimentInput → List Parameter
get_selected conditional value e = filter (is_selected conditional value) e.parameters

-- `_.contains(keys, p.editKey)`.
abbrev pub has_edit_key : List (Option String) → Option String → Bool
has_edit_key [] key = false
has_edit_key (none ∷ keys) none = true
has_edit_key (none ∷ keys) (some key) = has_edit_key keys (some key)
has_edit_key (some k ∷ keys) none = has_edit_key keys none
has_edit_key (some k ∷ keys) (some key) = str_eq k key || has_edit_key keys (some key)

abbrev pub edit_keys : List Parameter → List (Option String)
edit_keys parameters = map (λ (p : Parameter). p.edit_key) parameters

abbrev pub in_turn :
    (Parameter → ExperimentInput → ExperimentInput)
    → List Parameter
    → ExperimentInput
    → ExperimentInput
in_turn f [] e = e
in_turn f (p ∷ parameters) e = in_turn f parameters (f p e)

abbrev pub without_keys_of : List Parameter → List Parameter → List Parameter
without_keys_of others parameters =
    filter (λ (p : Parameter). not (has_edit_key (edit_keys others) p.edit_key)) parameters

-- The field's new selection: conditions are added to the parameters that were not selected, and then
-- removed from those that are not any more.
unfoldable pub on_change :
    Conditional → ConditionalValue → List Parameter → ExperimentInput → ExperimentInput
unfolding get_selected on_add_condition on_remove_condition
on_change conditional value parameters e =
    let selected = get_selected conditional value e in
    in_turn (on_remove_condition conditional value) (without_keys_of parameters selected)
      (in_turn (on_add_condition conditional value) (without_keys_of selected parameters) e)
