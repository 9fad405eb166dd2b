-- ===== src/Experiment/Tests.antt =====
-- web/js/experiment: the theorems about the editor at small inputs.
use Prim.Native.String.{String}
use text.Mathlib.Text.{◌==◌ as str_eq}
use text.Mathlib.TextEquality.{eq_iff}
use sigopt_server.Base.{
  ◌↔◌, not, ℕ, ◌≡◌, refl, Bool, true, false, ◌&&◌, Option, none, some, is_some, [], ◌∷◌, ◌==◌,
  ==_iff, arith, if◌then◌else◌,
}
use sigopt_server.Utils.Json.{
  value_at, Json, undefined, null, boolean, number, str, array, object, Items, nil, cons, Fields,
  end, field, field_at, omit_fields, has_key,
}
use sigopt_server.Experiment.Model.{
  Parameter, ConditionalValue, Conditional, ExperimentInput, default_experiment, default_parameter,
  default_conditional, default_metric, parameter_key,
}
use sigopt_server.Experiment.Editor.{on_add_conditional, set_parameter}
use sigopt_server.Experiment.Editor.Selection.{on_add_condition, with_condition, values_of}
use sigopt_server.Experiment.Editor.Edits.{
  Edits, IsConsistent, unchanged, further, conditional_added, condition_added,
}
use sigopt_server.Experiment.Editor.Reached.{reached-IsConsistent}
use sigopt_server.Experiment.Submission.{sanitize_parameter}
use sigopt_server.Experiment.Submission.Parameters.{is_sanitized, sanitize_parameter-is_sanitized}
use sigopt_server.Experiment.Submission.Sent.{
  Loaded, data_for_update, sanitize_for_update, update_omit_keys,
}
use sigopt_server.Utils.Json.Omit.{then_omit}
use sigopt_server.Experiment.Submission.Changes.{
  sends, edited, applied, sanitize_for_update-applied,
}

abbrev one_number : String → Option ℕ
one_number s = if str_eq s "1" then some 1 else none

abbrev value : ConditionalValue
value = record { name = ""; edit_key = "v" }

abbrev conditional : Conditional
conditional = record { name = ""; values = value ∷ []; edit_key = "c" }

abbrev parameter : Parameter
unfolding default_parameter
parameter = default_parameter "p"

abbrev with_conditional : ExperimentInput
unfolding on_add_conditional default_experiment default_parameter default_metric default_conditional
with_conditional = on_add_conditional "v" "c" (default_experiment "p")

abbrev conditioned : ExperimentInput
unfolding on_add_condition set_parameter parameter_key with_condition values_of
conditioned = on_add_condition conditional value parameter with_conditional

edits : Edits (default_experiment "p") conditioned
unfolding with_conditional on_add_conditional default_experiment default_parameter default_metric
    default_conditional on_add_condition conditioned
edits =
    further (further unchanged (conditional_added "v" "c"))
      (condition_added conditional value parameter refl refl)

reached-IsConsistent_example : IsConsistent conditioned
reached-IsConsistent_example = reached-IsConsistent "p" conditioned edits

sanitize_parameter-is_sanitized_example :
    (is_sanitized one_number (sanitize_parameter one_number parameter) ≡ true)
    × ((is_sanitized one_number parameter ≡ true)
        ↔ (sanitize_parameter one_number parameter ≡ parameter))
sanitize_parameter-is_sanitized_example = sanitize_parameter-is_sanitized one_number parameter

mutual
  same_json : Json → Json → Bool
  same_json undefined undefined = true
  same_json null null = true
  same_json (boolean true) (boolean true) = true
  same_json (boolean false) (boolean false) = true
  same_json (number m) (number n) = m == n
  same_json (str s) (str t) = str_eq s t
  same_json (array xs) (array ys) = same_items xs ys
  same_json (object xs) (object ys) = same_fields xs ys
  same_json i j = false

  same_items : Items → Items → Bool
  same_items nil nil = true
  same_items (cons i xs) (cons j ys) = same_json i j && same_items xs ys
  same_items xs ys = false

  same_fields : Fields → Fields → Bool
  same_fields end end = true
  same_fields (field k i xs) (field l j ys) = str_eq k l && (same_json i j && same_fields xs ys)
  same_fields xs ys = false

mutual
  unfolding same_json

  same_json_refl : (j : Json) → same_json j j ≡ true
  same_json_refl undefined = refl
  same_json_refl null = refl
  same_json_refl (boolean true) = refl
  same_json_refl (boolean false) = refl
  same_json_refl (number n) = ground (arith, ==_iff n n)
  same_json_refl (str s) = ground (arith, eq_iff s s)
  same_json_refl (array xs) = same_items_refl xs
  same_json_refl (object xs) = same_fields_refl xs

  same_items_refl : (xs : Items) → same_items xs xs ≡ true
  same_items_refl nil = refl
  same_items_refl (cons j xs) = rw (same_json_refl j, same_items_refl xs) refl

  same_fields_refl : (xs : Fields) → same_fields xs xs ≡ true
  same_fields_refl end = refl
  same_fields_refl (field k j xs) =
      rw ((eq_iff k k).1 refl, same_json_refl j, same_fields_refl xs) refl

abbrev loaded : Loaded
loaded = record { is_ai_experiment = false; can_edit_parameters = true; can_edit_metrics = false }

abbrev recovered : Fields
recovered = field "name" (str "old") (field "project" null end)

abbrev new_experiment : Fields
unfolding data_for_update
new_experiment = data_for_update one_number loaded conditioned []

abbrev sent_update : Fields
unfolding sanitize_for_update
sent_update = sanitize_for_update one_number same_json loaded (some recovered) conditioned []

sanitize_for_update-applied_example :
    (field_at "name" new_experiment ≡ (
      if sends loaded "name" && not (has_key update_omit_keys "name")
      then then_omit update_omit_keys
          (field_at "name" (edited one_number same_json same_json_refl conditioned []))
      else none))
    × (field_at "name" sent_update ≡ (
        if same_json
          (value_at "name" new_experiment)
          (value_at "name" (omit_fields update_omit_keys recovered))
        then none
        else field_at "name" new_experiment))
    × ((is_some (field_at "name" new_experiment)
          && not (
              same_json
                (value_at "name" new_experiment)
                (applied (omit_fields update_omit_keys recovered) sent_update "name")))
        ≡ false)
unfolding new_experiment sent_update
sanitize_for_update-applied_example =
    sanitize_for_update-applied one_number same_json same_json_refl loaded recovered conditioned []
      "name"
