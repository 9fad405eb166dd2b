-- ===== src/Net/Tests.antt =====
-- web/js/net: the theorems of the fetching modules at small inputs.
use sigopt_server.Base.{
  ℕ, ◌≡◌, refl, false, true, none, some, List, [], ◌∷◌, ◌++◌, arith, ◌==◌, ==_iff,
}
use sigopt_server.Net.ExhaustivelyPage as Paging
use sigopt_server.Net.ExhaustivelyPage.OverArray.{
  array_fetcher, never, exhaustively_page-array, exhaustively_page-limit_zero,
}
use sigopt_server.Net.DataSource as Source
use sigopt_server.Net.DataSource.Delivery.{asks, settling, run-delivery}
use sigopt_server.Net.StreamingPager as Streaming
use sigopt_server.Net.StreamingPager.Pages.{outcome_of, start-outcome_of}
use sigopt_server.Net.Poller as Polling
use sigopt_server.Net.Poller.Changes.{IsSound, reached-IsSound, new_world}

abbrev five : List ℕ
five = 1 ∷ 2 ∷ 3 ∷ 4 ∷ 5 ∷ []

exhaustively_page-array_example :
    Paging.exhaustively_page (array_fetcher five 2 true) never 6
    ≡ Paging.success (5 ∷ 4 ∷ 3 ∷ 2 ∷ 1 ∷ [])
exhaustively_page-array_example = exhaustively_page-array five 2 6 true (omega arith) (omega arith)

exhaustively_page-limit_zero_example :
    Paging.exhaustively_page (array_fetcher five 0 false) never 9 ≡ Paging.unfinished
exhaustively_page-limit_zero_example = exhaustively_page-limit_zero five 9 (omega arith)

run-delivery_example :
    (Source.run {D = ℕ}
      (asks ((some 1, none) ∷ (some 2, some 3) ∷ [])
        ++ settling true 9 ∷ asks ((some 4, none) ∷ []))
      Source.new_source).1
    ≡ Source.fetch_data
      ∷ Source.callback 1 (some 9)
      ∷ Source.callback 2 (some 9)
      ∷ Source.callback 4 (some 9)
      ∷ []
run-delivery_example =
    run-delivery (some 1, none) ((some 2, some 3) ∷ []) ((some 4, none) ∷ []) true 9

abbrev started : Polling.World (λ (a b : ℕ). a == b)
started = Polling.after (λ (a b : ℕ). a == b) (Polling.start Polling.new_poller) 0 []

abbrev waiting : Polling.World (λ (a b : ℕ). a == b)
waiting =
    Polling.after (λ (a b : ℕ). a == b) (Polling.do_poll started.poller) started.in_flight
      started.changes

abbrev changed : Polling.World (λ (a b : ℕ). a == b)
changed =
    Polling.after (λ (a b : ℕ). a == b)
      (Polling.poll_success (λ (a b : ℕ). a == b) 7 waiting.poller) 0 waiting.changes

abbrev polled : Polling.Reach (λ (a b : ℕ). a == b) (new_world (λ (a b : ℕ). a == b) ==_iff) changed
unfolding Polling.start Polling.do_poll Polling.new_poller
polled =
    Polling.further
      (Polling.further (Polling.further Polling.here (Polling.starting refl))
        (Polling.polling refl))
      (Polling.succeeding 0 7 refl refl)

reached-IsSound_example : IsSound (λ (a b : ℕ). a == b) ==_iff changed
reached-IsSound_example = reached-IsSound (λ (a b : ℕ). a == b) ==_iff changed polled

start-outcome_of_example :
    Paging.exhaustively_page (array_fetcher five 2 true) never 6
    ≡ outcome_of [] (Streaming.start (array_fetcher five 2 true) never 6)
start-outcome_of_example = start-outcome_of (array_fetcher five 2 true) never (λ n. refl) 6
