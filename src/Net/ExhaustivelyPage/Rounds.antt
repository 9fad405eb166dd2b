-- ===== src/Net/ExhaustivelyPage/Rounds.antt =====
-- web/js/net/paging.js: one round of fetching, by what the fetcher calls back with.
use sigopt_server.Base.{ℕ, suc, ◌≡◌, Bool, true, false, Option, none, some, List, ◌++◌, arith}
use sigopt_server.Net.ExhaustivelyPage.{
  Fetched, page, failure, success, error, silent, fetch_next_page,
}

module _ {A M E : Type 0} (fetcher : Option M → Fetched A M E) (cancelled : ℕ → Bool)
    (fuel round : ℕ) (so_far : List A) (marker : Option M) where
  pub next_round :
      (rows : List A) (next : M)
      → fetcher marker ≡ page rows (some next)
      → cancelled round ≡ false
      → fetch_next_page fetcher cancelled (suc fuel) round so_far marker
        ≡ fetch_next_page fetcher cancelled fuel (suc round) (so_far ++ rows) (some next)
  unfolding fetch_next_page
  next_round rows next e c = ground arith

  pub last_round :
      (rows : List A)
      → fetcher marker ≡ page rows none
      → cancelled round ≡ false
      → fetch_next_page fetcher cancelled (suc fuel) round so_far marker ≡ success (so_far ++ rows)
  unfolding fetch_next_page
  last_round rows e c = ground arith

  pub failed_round :
      (e : E)
      → fetcher marker ≡ failure e
      → cancelled round ≡ false
      → fetch_next_page fetcher cancelled (suc fuel) round so_far marker ≡ error e
  unfolding fetch_next_page
  failed_round x e c = ground arith

  pub cancelled_round :
      cancelled round ≡ true
      → fetch_next_page fetcher cancelled (suc fuel) round so_far marker ≡ silent
  unfolding fetch_next_page
  cancelled_round c = ground arith
