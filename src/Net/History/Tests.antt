-- ===== src/Net/History/Tests.antt =====
-- web/js/net/history.js: the theorems on the tracker at a page with two components.
use sigopt_server.Base.{ℕ, ◌≡◌, refl, none, [], ◌∷◌, ◌==◌, ==_iff}
use sigopt_server.Net.History.{
  HistoryTracker, own, new_tracker, add_handler, push_state, call_handlers, base_pop_handler,
}
use sigopt_server.Net.History.InStep.{reached-IsInStep}
use sigopt_server.Net.History.World.{
  World, IsInStep, adding, pushing, popping, Reach, here, further, new_world, show_state, after_pop,
}
use sigopt_server.Utils.Dict.{get, set, extend}

-- The component of the handler 7 has the key page, that of 8 the key archived.
abbrev two_components : HistoryTracker ℕ
two_components = record {
  handlers = ("page", 7) ∷ ("archived", 8) ∷ [];
  initial = ("page", 0) ∷ ("archived", 0) ∷ [];
  last_state = own (("page", 2) ∷ ("archived", 0) ∷ []);
  listeners = 1;
}

to_page_3 : (push_state (("page", 3) ∷ []) two_components).1 ≡ ("page", 3) ∷ ("archived", 0) ∷ []
unfolding push_state extend set
to_page_3 = refl

back_to_first_page : (base_pop_handler ◌==◌ none two_components).1.calls ≡ (7, 0) ∷ []
unfolding base_pop_handler call_handlers get
back_to_first_page = refl

abbrev one_component : World ℕ
one_component = record { tracker = add_handler "page" 7 0 new_tracker; shown = λ i. 0 }

abbrev on_page_2 : World ℕ
on_page_2 = record {
  tracker = (push_state (("page", 2) ∷ []) one_component.tracker).0;
  shown = show_state one_component.tracker.handlers (("page", 2) ∷ []) one_component.shown;
}

abbrev back_again : World ℕ
back_again = after_pop (base_pop_handler ◌==◌ none on_page_2.tracker) on_page_2.shown

there_and_back : Reach ◌==◌ (new_world (λ i. 0)) back_again
unfolding base_pop_handler call_handlers get push_state extend set add_handler new_tracker
there_and_back =
    further {u = on_page_2}
      (further {u = one_component} (further here (adding "page" 7 0 refl refl))
        (pushing (("page", 2) ∷ []) refl))
      (popping none tt refl refl)

reached-IsInStep_example : IsInStep back_again
reached-IsInStep_example = reached-IsInStep ◌==◌ ==_iff (λ i. 0) back_again there_and_back
