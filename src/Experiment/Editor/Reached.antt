-- ===== src/Experiment/Editor/Reached.antt =====
-- web/js/experiment/editor.js: the conditions of an experiment that is being created, after any
-- number of changes.
use Prim.Native.String.{String}
use sigopt_server.Base.{
  Holds, All-imp, All-kept, All-map, ◌≡◌, refl, sym, subst, ◌∙◌, Bool, not, none, some, List, [],
  ◌∷◌, find, All, All-append, arith, Bool-cases, Option-cases, inl, inr, if◌then◌else◌,
}
use sigopt_server.Experiment.Model.{
  Parameter, Conditional, ExperimentInput, default_conditional, default_parameter,
  default_experiment,
}
use sigopt_server.Experiment.Editor.{
  experiment_setter, of_name, of_observation_budget, of_budget, of_parallel_bandwidth,
  on_metrics_edit_change, find_conditional, set_parameter, remove_parameter, add_parameter,
  on_add_conditional, on_change_conditional, on_metric_create_change, on_metric_create_remove,
  add_metric_create, on_remove_conditional, remove_condition_values, same_parameter, change_name,
  add_value, remove_value, change_value_name,
}
use sigopt_server.Experiment.Editor.Selection.{on_add_condition, on_remove_condition}
use sigopt_server.Experiment.Editor.Edits.{
  ConditionalChange, renamed, value_added, value_removed, value_renamed, updater_of, Edit, Edits,
  Refers, AllRefer, IsConsistent, unchanged, further, parameter_set, parameter_removed,
  parameter_added, metric_changed, metric_removed, metric_added, conditional_added,
  conditional_changed, conditional_removed, field_set, metrics_edited, condition_added,
  condition_removed,
}
use sigopt_server.Experiment.Editor.References.{find_conditional-key}
use sigopt_server.Experiment.Editor.Consistent.{
  Refers-append, AllRefer-change, AllRefer-omit, AllRefer-with_condition,
  AllRefer-without_condition,
}

All-find {ℓ κ} :
    {A : Type ℓ} (P : A → Type κ) (p : A → Bool) (xs : List A) (x : A)
    → All P xs
    → find p xs ≡ some x
    → P x
All-find P p [] x h found = ground arith
All-find P p (y ∷ xs) x (q, h) found = elim (Bool-cases (p y)) [
  | inl hit ↦ let y≡x : y ≡ x = ground (arith, found) in subst P y≡x q
  | inr miss ↦ All-find P p xs x h (ground arith)
]

set_parameter-IsConsistent :
    (input : Parameter) (updater : Parameter → Parameter) (e : ExperimentInput)
    → ((p : Parameter) → AllRefer e.conditionals p → AllRefer e.conditionals (updater p))
    → IsConsistent e
    → IsConsistent (set_parameter input updater e)
unfolding set_parameter
set_parameter-IsConsistent input updater e step h =
    elim (Option-cases (find (λ p. same_parameter p input) e.parameters)) [
      | inl missing ↦ rw (missing, set_parameter) h
      | inr (previous, found) ↦
          let new = step previous (
            All-find (AllRefer e.conditionals) (λ p. same_parameter p input) e.parameters previous h
              found) in
          rw (found, set_parameter)
            (All-map (AllRefer e.conditionals)
              (λ p. if same_parameter p input then updater previous else p) e.parameters
              (All-imp (AllRefer e.conditionals) _ e.parameters
                (λ p r. elim (Bool-cases (same_parameter p input)) [
                  | inl hit ↦ rw hit new
                  | inr miss ↦ rw miss r
                ])
                h))
    ]

updater_of-edit_key :
    (change : ConditionalChange) (c : Conditional) → (updater_of change c).edit_key ≡ c.edit_key
unfolding change_name add_value remove_value change_value_name
updater_of-edit_key (renamed name) c = refl
updater_of-edit_key (value_added key) c = refl
updater_of-edit_key (value_removed value) c = refl
updater_of-edit_key (value_renamed value name) c = refl

on_change_conditional-IsConsistent :
    (c : Conditional) (updater : Conditional → Conditional) (e : ExperimentInput)
    → ((d : Conditional) → (updater d).edit_key ≡ d.edit_key)
    → IsConsistent e
    → Holds IsConsistent (on_change_conditional c updater e)
unfolding on_change_conditional remove_condition_values
on_change_conditional-IsConsistent c updater e same h =
    elim (Option-cases (find_conditional c.edit_key e.conditionals)) [
      | inl missing ↦ rw (missing, on_change_conditional) tt
      | inr (previous, found) ↦
          let key = same previous ∙ find_conditional-key c.edit_key e.conditionals previous found in
          rw (found, on_change_conditional)
            (All-map _ _ e.parameters (
              All-imp (AllRefer e.conditionals) _ e.parameters
                (λ p r.
                  AllRefer-change c.edit_key previous (updater previous) e.conditionals found key
                    p.conditions r)
                h))
    ]

unknown-IsConsistent :
    (kept : List Conditional) (e : ExperimentInput) (ps : List Parameter)
    → e.parameters ≡ ps
    → Holds IsConsistent
        (elim ps [ [] ↦ some (record e { conditionals = kept }) | p ∷ rest ↦ none ])
unknown-IsConsistent kept e [] empty = subst (All (AllRefer kept)) (sym empty) tt
unknown-IsConsistent kept e (p ∷ ps) other = tt

on_remove_conditional-IsConsistent :
    (c : Conditional) (e : ExperimentInput)
    → IsConsistent e
    → Holds IsConsistent (on_remove_conditional c e)
unfolding on_remove_conditional
on_remove_conditional-IsConsistent c e h =
    elim (Option-cases (find_conditional c.edit_key e.conditionals)) [
      | inl missing ↦
          rw (missing, on_remove_conditional) (unknown-IsConsistent _ e e.parameters refl)
      | inr (previous, found) ↦
          let key = find_conditional-key c.edit_key e.conditionals previous found in
          rw (found, on_remove_conditional, key)
            (All-map _ _ e.parameters (
              All-imp (AllRefer e.conditionals) _ e.parameters
                (λ p r. AllRefer-omit c.edit_key e.conditionals p.conditions r) h))
    ]

-- One step.
Edit-IsConsistent : (e e' : ExperimentInput) → Edit e e' → IsConsistent e → IsConsistent e'
unfolding remove_parameter add_parameter default_parameter on_metric_create_change
    on_metric_create_remove add_metric_create on_add_conditional on_add_condition
    on_remove_condition experiment_setter on_metrics_edit_change
Edit-IsConsistent e e' (parameter_set input updater same) h =
    set_parameter-IsConsistent input updater e (λ p r. rw (same p) r) h
Edit-IsConsistent e e' (parameter_removed input) h =
    All-kept (AllRefer e.conditionals) (λ p. not (same_parameter p input)) e.parameters h
Edit-IsConsistent e e' (parameter_added key) h =
    All-append (AllRefer e.conditionals) e.parameters (default_parameter key ∷ []) h (tt, tt)
Edit-IsConsistent e e' (field_set of_name value) h = h
Edit-IsConsistent e e' (field_set of_observation_budget value) h = h
Edit-IsConsistent e e' (field_set of_budget value) h = h
Edit-IsConsistent e e' (field_set of_parallel_bandwidth value) h = h
Edit-IsConsistent e e' (metrics_edited metrics) h = h
Edit-IsConsistent e e' (metric_changed m index) h = h
Edit-IsConsistent e e' (metric_removed index) h = h
Edit-IsConsistent e e' metric_added h = h
Edit-IsConsistent e e' (conditional_added value_key key) h =
    All-imp (AllRefer e.conditionals) _ e.parameters
      (λ p.
        All-imp (Refers e.conditionals) _ p.conditions
          (λ x. Refers-append e.conditionals (default_conditional value_key key ∷ []) x))
      h
Edit-IsConsistent e e' (conditional_changed c change _ changed) h =
    subst (Holds IsConsistent) changed
      (on_change_conditional-IsConsistent c (updater_of change) e (updater_of-edit_key change) h)
Edit-IsConsistent e e' (conditional_removed c _ removed) h =
    subst (Holds IsConsistent) removed (on_remove_conditional-IsConsistent c e h)
Edit-IsConsistent e e' (condition_added c value input found known) h =
    set_parameter-IsConsistent input _ e
      (λ p r. AllRefer-with_condition e.conditionals c value.edit_key p.conditions found known r) h
Edit-IsConsistent e e' (condition_removed c value input) h =
    set_parameter-IsConsistent input _ e
      (λ p r. AllRefer-without_condition e.conditionals c.edit_key value.edit_key p.conditions r) h

Edits-IsConsistent : (e e' : ExperimentInput) → Edits e e' → IsConsistent e → IsConsistent e'
Edits-IsConsistent e e' unchanged h = h
Edits-IsConsistent e e' (further {d} edits edit) h =
    Edit-IsConsistent d e' edit (Edits-IsConsistent e d edits h)

-- From the default experiment, whatever is changed in the editor, the conditions of each parameter
-- refer to conditionals that exist and to values of theirs.
pub reached-IsConsistent :
    (key : String) (e : ExperimentInput) → Edits (default_experiment key) e → IsConsistent e
unfolding default_experiment default_parameter
reached-IsConsistent key e edits = Edits-IsConsistent (default_experiment key) e edits ((tt, tt))
