-- ===== src/Component/Editable/World.antt =====
-- web/js/component/make-editable.js: the component while submissions are under way.
use sigopt_server.Base.{
  ℕ, ◌+◌, ◌-◌, ◌<◌, ◌≡◌, refl, Bool, true, false, Option, none, some, is_some, List, [], ◌∷◌, ◌==◌,
  All, arith, if◌then◌else◌,
}
use sigopt_server.Component.Editable.{
  Submission, default_state, submit, submit_success, submit_error, Editing, recovered, not_editing,
  initial_editing, cancel_editing, start_editing, stop_editing_and_submit, edit_success,
}

-- What the user and the submissions do. A submission is one of `stopEditingAndSubmit`, an edit, or
-- one of `submit` itself, plain.
pub data Event (S : Type 0) : Type 0 where
  start : Option S → Event S
  cancel stop_and_submit submit_plain : Event S
  edit_succeeded plain_succeeded edit_failed plain_failed : Event S

-- The component, and the numbers of the submissions that have not called back.
pub record World (S : Type 0) : Type 0 where
  pub submission : Submission
  pub edit : Editing S
  pub edits : ℕ
  pub plain : ℕ

abbrev one_if : Bool → ℕ
one_if true = 1
one_if false = 0

module _ {S : Type 0} where
  -- An event of a submission that is not there does nothing.
  pub step : Event S → World S → World S
  unfolding cancel_editing start_editing stop_editing_and_submit submit submit_success submit_error
      edit_success
  step (start recovery_state) w = record w { edit = start_editing recovery_state w.edit }
  step cancel w =
      let r = (cancel_editing (w.submission, w.edit)).0 in record w { submission = r.0; edit = r.1 }
  step stop_and_submit w =
      let (r, called) = stop_editing_and_submit (w.submission, w.edit) in
      record w { submission = r.0; edit = r.1; edits = w.edits + one_if called }
  step submit_plain w =
      let (s, called) = submit w.submission in
      record w { submission = s; plain = w.plain + one_if called }
  step edit_succeeded w =
      if w.edits == 0
      then w
      else (let r = edit_success (w.submission, w.edit) in
          record w { submission = r.0; edit = r.1; edits = w.edits - 1 })
  step plain_succeeded w =
      if w.plain == 0
      then w
      else record w { submission = submit_success w.submission; plain = w.plain - 1 }
  step edit_failed w =
      if w.edits == 0
      then w
      else record w { submission = submit_error w.submission; edits = w.edits - 1 }
  step plain_failed w =
      if w.plain == 0
      then w
      else record w { submission = submit_error w.submission; plain = w.plain - 1 }

  pub run : List (Event S) → World S → World S
  unfolding step
  run [] w = w
  run (event ∷ events) w = run events (step event w)

  pub mounted : Bool → World S
  mounted editing = record {
    submission = default_state;
    edit = initial_editing editing;
    edits = 0;
    plain = 0;
  }

  pub record IsSound (w : World S) : Type 0 where
    pub recovering : is_some w.edit.editing_recovery_state ≡ true → w.edit.editing ≡ true
    pub under_way : w.submission.submitting ≡ true → 0 < w.edits + w.plain

  step-IsSound : (event : Event S) (w : World S) → IsSound w → IsSound (step event w)
  unfolding step cancel_editing start_editing stop_editing_and_submit submit submit_success
      submit_error edit_success
  step-IsSound (start none) w v = ground arith
  step-IsSound (start (some r)) w v = ground arith
  step-IsSound cancel w v = ground arith
  step-IsSound stop_and_submit w v = ground arith
  step-IsSound submit_plain w v = ground arith
  step-IsSound edit_succeeded w v = ground arith
  step-IsSound plain_succeeded w v = ground arith
  step-IsSound edit_failed w v = ground arith
  step-IsSound plain_failed w v = ground arith

  run-IsSound : (events : List (Event S)) (w : World S) → IsSound w → IsSound (run events w)
  unfolding run
  run-IsSound [] w v = v
  run-IsSound (event ∷ events) w v = run-IsSound events (step event w) (step-IsSound event w v)

  -- Whatever the order of events since mounting: a recovery state is held only while the component
  -- is being edited, and `submitting` is set only while some submission has not called back.
  pub run-mounted-IsSound :
      (editing : Bool) (events : List (Event S)) → IsSound (run events (mounted editing))
  unfolding mounted
  run-mounted-IsSound editing events =
      run-IsSound events (mounted editing) (record { recovering = λ e. cc; under_way = λ e. cc })

  -- The events that leave an edit open.
  abbrev pub leaves_open : Event S → Bool
  leaves_open cancel = false
  leaves_open edit_succeeded = false
  leaves_open event = true

  abbrev IsOpen : S → World S → Type 0
  IsOpen r w = (w.edit.editing ≡ true) × (w.edit.editing_recovery_state ≡ some r)

  step-IsOpen :
      (r : S) (event : Event S) (w : World S)
      → leaves_open event ≡ true
      → IsOpen r w
      → IsOpen r (step event w)
  unfolding step start_editing stop_editing_and_submit submit submit_success submit_error
  step-IsOpen r (start s) w e o = ground arith
  step-IsOpen r cancel w e o = cc
  step-IsOpen r stop_and_submit w e o = ground arith
  step-IsOpen r submit_plain w e o = ground arith
  step-IsOpen r edit_succeeded w e o = cc
  step-IsOpen r plain_succeeded w e o = ground arith
  step-IsOpen r edit_failed w e o = ground arith
  step-IsOpen r plain_failed w e o = ground arith

  run-IsOpen :
      (r : S) (events : List (Event S)) (w : World S)
      → All (λ event. leaves_open event ≡ true) events
      → IsOpen r w
      → IsOpen r (run events w)
  unfolding run
  run-IsOpen r [] w hs o = o
  run-IsOpen r (event ∷ events) w (h, hs) o =
      run-IsOpen r events (step event w) hs (step-IsOpen r event w h o)

  -- Cancelling gives back the state in which editing was started, whatever happened in between but
  -- a cancelling and the success of an edit: editing started again, submissions, failures. It ends
  -- the editing, drops the recovery state and resets the flags of the submission.
  pub cancel_editing-start_editing :
      (r : S) (events : List (Event S)) (w : World S)
      → w.edit ≡ not_editing
      → All (λ event. leaves_open event ≡ true) events
      → let w' = run events (record w { edit = start_editing (some r) w.edit }) in
        cancel_editing (w'.submission, w'.edit) ≡ ((default_state, not_editing), recovered (some r))
  unfolding cancel_editing start_editing
  cancel_editing-start_editing r events w e hs =
      let started = record w { edit = start_editing (some r) w.edit } in
      let (open_edit, held) = run-IsOpen r events started hs (rw e (refl, refl)) in
      rw (open_edit, held) refl
