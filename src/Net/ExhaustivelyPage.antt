-- ===== src/Net/ExhaustivelyPage.antt =====
-- web/js/net/paging.js: fetching page after page until there is no next marker. The fetcher is an
-- argument: what it calls back with for a marker. `params` hold no marker of their own. The
-- n-th answer finds the monitor cancelled or not, as `cancelled n` says.
pub mod Rounds
pub mod OverArray
use sigopt_server.Base.{
  ℕ, zero, suc, Bool, true, false, Option, none, some, List, [], ◌++◌, if◌then◌else◌,
}

-- What the fetcher calls: `success` with the rows and the next marker, or `error`.
pub data Fetched (A M E : Type 0) : Type 0 where
  page : List A → Option M → Fetched A M E
  failure : E → Fetched A M E

-- What `exhaustivelyPage` calls in the end; `silent` if it was cancelled, and `unfinished` if the
-- fuel ran out while there was a next page.
pub data Outcome (A E : Type 0) : Type 0 where
  success : List A → Outcome A E
  error : E → Outcome A E
  silent unfinished : Outcome A E

module _ {A M E : Type 0} (fetcher : Option M → Fetched A M E) (cancelled : ℕ → Bool) where
  unfoldable pub fetch_next_page : ℕ → ℕ → List A → Option M → Outcome A E
  fetch_next_page zero round so_far marker = unfinished
  fetch_next_page (suc fuel) round so_far marker = elim (fetcher marker) [
    | page rows next_marker ↦ elim (cancelled round) [
      | true ↦ silent
      | false ↦ elim next_marker [
        | some next ↦ fetch_next_page fuel (suc round) (so_far ++ rows) (some next)
        | none ↦ success (so_far ++ rows)
      ]
    ]
    | failure e ↦ if cancelled round then silent else error e
  ]

  unfoldable pub exhaustively_page : ℕ → Outcome A E
  exhaustively_page fuel = fetch_next_page fuel 0 [] none
