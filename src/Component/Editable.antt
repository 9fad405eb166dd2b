-- ===== src/Component/Editable.antt =====
-- web/js/component/make-submittable.js and make-editable.js: the two states that the component
-- wrapped in both has. A `setState` with its callback is one step. A recovery state is truthy and
-- its deep copy equal to it; none is one that is null or undefined.
pub mod World
use sigopt_server.Base.{Bool, true, false, not, ◌&&◌, Option, none, some, is_some, if◌then◌else◌}

pub record Submission : Type 0 where
  pub submitted : Bool
  pub submitting : Bool

-- `defaultState`.
abbrev pub default_state : Submission
default_state = record { submitted = false; submitting = false }

-- `submit`: the state, and whether the submitter is called.
pub submit : Submission → Submission × Bool
submit s = if not s.submitting then (record s { submitting = true }, true) else (s, false)

-- What the submitter's two callbacks do to the state.
pub submit_success : Submission → Submission
submit_success s = record s { submitting = false; submitted = true }

pub submit_error : Submission → Submission
submit_error s = record s { submitting = false }

pub record Editing (S : Type 0) : Type 0 where
  pub editing : Bool
  pub editing_recovery_state : Option S

-- What the callback of `cancelEditing` is given: `{}`, or the recovery state.
pub data Recovery (S : Type 0) : Type 0 where
  empty : Recovery S
  recovered : Option S → Recovery S

module _ {S : Type 0} where
  -- The state for the prop `editing`.
  abbrev pub initial_editing : Bool → Editing S
  initial_editing editing = record { editing = editing; editing_recovery_state = none }

  abbrev pub not_editing : Editing S
  not_editing = initial_editing false

  -- `cancelEditing`; it also calls `resetSubmissionState`.
  pub cancel_editing : Submission × Editing S → (Submission × Editing S) × Recovery S
  cancel_editing (s, e) =
      if e.editing
      then ((default_state, not_editing), recovered e.editing_recovery_state)
      else ((default_state, e), empty)

  pub start_editing : Option S → Editing S → Editing S
  start_editing recovery_state e =
      if not e.editing
      then record {
        editing = true;
        editing_recovery_state =
            if not e.editing && not (is_some e.editing_recovery_state)
            then recovery_state
            else e.editing_recovery_state;
      }
      else e

  -- `stopEditingAndSubmit`: the states, and whether the submitter is called.
  pub stop_editing_and_submit : Submission × Editing S → (Submission × Editing S) × Bool
  unfolding submit
  stop_editing_and_submit (s, e) =
      if e.editing then (let (s', called) = submit s in ((s', e), called)) else ((s, e), false)

  -- The success of a submission that `stopEditingAndSubmit` started.
  pub edit_success : Submission × Editing S → Submission × Editing S
  unfolding submit_success
  edit_success (s, e) = (submit_success s, not_editing)
