-- ===== src/Experiment/Editor/Chosen.antt =====
-- web/js/experiment/conditionals/input.js: a new selection in the field of a value is a sequence of
-- steps of the editor.
use sigopt_server.Base.{◌≡◌, refl, true, some, List, [], ◌∷◌, find, Option-cases, inl, inr}
use sigopt_server.Utils.Json.{has_key}
use sigopt_server.Experiment.Model.{Parameter, ConditionalValue, Conditional, ExperimentInput}
use sigopt_server.Experiment.Editor.{set_parameter, same_parameter, find_conditional, value_keys}
use sigopt_server.Experiment.Editor.Selection.{
  on_add_condition, on_remove_condition, in_turn, on_change, get_selected, without_keys_of,
}
use sigopt_server.Experiment.Editor.Edits.{
  Edits, further, unchanged, condition_added, condition_removed,
}

set_parameter-conditionals :
    (input : Parameter) (updater : Parameter → Parameter) (e : ExperimentInput)
    → (set_parameter input updater e).conditionals ≡ e.conditionals
unfolding set_parameter
set_parameter-conditionals input updater e =
    elim (Option-cases (find (λ p. same_parameter p input) e.parameters)) [
      | inl missing ↦ rw (missing, set_parameter) refl
      | inr (previous, found) ↦ rw (found, set_parameter) refl
    ]

module _ (c : Conditional) (value : ConditionalValue) (start : ExperimentInput) where
  added-Edits :
      (parameters : List Parameter) (e : ExperimentInput)
      → find_conditional c.edit_key e.conditionals ≡ some c
      → has_key (value_keys c) value.edit_key ≡ true
      → Edits start e
      → Edits start (in_turn (on_add_condition c value) parameters e)
  unfolding on_add_condition
  added-Edits [] e found known edits = edits
  added-Edits (p ∷ parameters) e found known edits =
      added-Edits parameters (on_add_condition c value p e)
        (rw (set_parameter-conditionals p _ e) found) known
        (further edits (condition_added c value p found known))

  removed-Edits :
      (parameters : List Parameter) (e : ExperimentInput)
      → Edits start e
      → Edits start (in_turn (on_remove_condition c value) parameters e)
  removed-Edits [] e edits = edits
  removed-Edits (p ∷ parameters) e edits =
      removed-Edits parameters (on_remove_condition c value p e)
        (further edits (condition_removed c value p))

-- Choosing parameters for a value that the input has makes a sequence of steps.
on_change-Edits :
    (c : Conditional) (value : ConditionalValue) (parameters : List Parameter) (e : ExperimentInput)
    → find_conditional c.edit_key e.conditionals ≡ some c
    → has_key (value_keys c) value.edit_key ≡ true
    → Edits e (on_change c value parameters e)
unfolding on_change
on_change-Edits c value parameters e found known =
    let selected = get_selected c value e in
    removed-Edits c value e (without_keys_of parameters selected)
      (in_turn (on_add_condition c value) (without_keys_of selected parameters) e)
      (added-Edits c value e (without_keys_of selected parameters) e found known unchanged)
