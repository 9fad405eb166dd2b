-- ===== src/Component/Tests.antt =====
-- web/js/component: the theorems about editing at small inputs.
use sigopt_server.Base.{ℕ, false, some, [], ◌∷◌}
use sigopt_server.Component.Editable.{default_state, not_editing}
use sigopt_server.Component.Editable.World.{
  start, cancel, stop_and_submit, edit_succeeded, World, run, mounted, IsSound, run-mounted-IsSound,
}

run-mounted-IsSound_example :
    IsSound {S = ℕ}
      (run (start (some 3) ∷ stop_and_submit ∷ cancel ∷ edit_succeeded ∷ []) (mounted false))
run-mounted-IsSound_example =
    run-mounted-IsSound false (start (some 3) ∷ stop_and_submit ∷ cancel ∷ edit_succeeded ∷ [])

abbrev idle : World ℕ
idle = record { submission = default_state; edit = not_editing; edits = 0; plain = 0 }
