-- ===== src/Net/StreamingPager.antt =====
-- web/js/net/streaming_pager.js: the pages of a fetcher, handed on one by one. The fetcher is an
-- argument, as in Net.ExhaustivelyPage. `cancelled n` says whether the pager has been stopped when
-- the n-th answer arrives, and `cancelled (n + 1)` whether it has been when that answer, the last,
-- is dealt with. Handlers do not throw.
pub mod Pages
use sigopt_server.Base.{
  ℕ, zero, suc, Bool, true, false, Option, none, some, List, [], ◌∷◌, if◌then◌else◌,
}
use sigopt_server.Net.ExhaustivelyPage.{Fetched, page, failure}

-- The last call: `onFinish`, `onError`, or none; `unfinished` if the fuel ran out.
pub data Ending (E : Type 0) : Type 0 where
  finished : Ending E
  failed : E → Ending E
  quiet unfinished : Ending E

module _ {A M E : Type 0} (fetcher : Option M → Fetched A M E) (cancelled : ℕ → Bool) where
  -- The pages that `onNewPage` hands on, and the ending.
  unfoldable pub fetch_next_page : ℕ → ℕ → Option M → List (List A) × Ending E
  fetch_next_page zero round before = ([], unfinished)
  fetch_next_page (suc fuel) round before = elim (fetcher before) [
    | page rows next_before ↦ elim (cancelled round) [
      | true ↦ ([], quiet)
      | false ↦ elim next_before [
        | none ↦ (rows ∷ [], if cancelled (suc round) then quiet else finished)
        | some next ↦ (
          rows ∷ (fetch_next_page fuel (suc round) (some next)).0,
          (fetch_next_page fuel (suc round) (some next)).1,
        )
      ]
    ]
    | failure e ↦ ([], if cancelled round then quiet else failed e)
  ]

  unfoldable pub start : ℕ → List (List A) × Ending E
  unfolding fetch_next_page
  start fuel = fetch_next_page fuel 0 none
