-- ===== src/Net/StreamingPager/Pages.antt =====
-- web/js/net/streaming_pager.js: the pages streamed are those of exhaustivelyPage, and end at a stop.
use sigopt_server.Base.{
  ℕ, zero, suc, ◌+◌, ◌≤◌, ◌≡◌, refl, sym, ap, ◌∙◌, Bool, true, false, Option, none, some, List, [],
  ◌∷◌, ◌++◌, append-nil, append_assoc, length, arith, Bool-cases, inl, inr, ◌⊎◌,
}
use sigopt_server.Net.ExhaustivelyPage.{
  Fetched, page, failure, Outcome, success, error, silent, unfinished as never_done,
  exhaustively_page, fetch_next_page as fetch_all,
}
use sigopt_server.Net.StreamingPager.{
  Ending, finished, failed, quiet, unfinished, fetch_next_page, start,
}

abbrev pub flatten {ℓ} : {A : Type ℓ} → List (List A) → List A
flatten [] = []
flatten (rows ∷ pages) = rows ++ flatten pages

module _ {A E : Type 0} where
  abbrev pub outcome_of : List A → List (List A) × Ending E → Outcome A E
  outcome_of so_far (pages, ending) = elim ending [
    | finished ↦ success (so_far ++ flatten pages)
    | failed e ↦ error e
    | quiet ↦ silent
    | unfinished ↦ never_done
  ]

  outcome_of-cons :
      (so_far rows : List A) (pages : List (List A)) (ending : Ending E)
      → outcome_of so_far (rows ∷ pages, ending) ≡ outcome_of (so_far ++ rows) (pages, ending)
  outcome_of-cons so_far rows pages finished =
      ap success (sym (append_assoc so_far rows (flatten pages)))
  outcome_of-cons so_far rows pages (failed e) = refl
  outcome_of-cons so_far rows pages quiet = refl
  outcome_of-cons so_far rows pages unfinished = refl

Fetched-cases :
    {A M E : Type 0} (answer : Fetched A M E)
    → ((e : E) × (answer ≡ failure e))
      ⊎ ((rows : List A) × (next : Option M) × (answer ≡ page rows next))
Fetched-cases (failure e) = inl (e, refl)
Fetched-cases (page rows next) = inr (rows, next, refl)

module _ {A M E : Type 0} (fetcher : Option M → Fetched A M E) (cancelled : ℕ → Bool) where
  fetch_next_page-outcome_of :
      ((n : ℕ) → cancelled n ≡ false)
      → (fuel round : ℕ) (so_far : List A) (before : Option M)
      → fetch_all fetcher cancelled fuel round so_far before
        ≡ outcome_of so_far (fetch_next_page fetcher cancelled fuel round before)
  unfolding fetch_all fetch_next_page
  fetch_next_page-outcome_of running zero round so_far before = refl
  fetch_next_page-outcome_of running (suc fuel) round so_far before =
      elim (Fetched-cases (fetcher before)) [
        | inl (e, a) ↦ rw (a, fetch_all, fetch_next_page, running round) refl
        | inr (rows, none, a) ↦
            rw (a, fetch_all, fetch_next_page, running round, running (suc round))
              (ap (λ xs. success (so_far ++ xs)) (sym (append-nil rows)))
        | inr (rows, some next, a) ↦
            let (pages, ending) = fetch_next_page fetcher cancelled fuel (suc round) (some next) in
            rw (a, fetch_all, fetch_next_page, running round)
              (fetch_next_page-outcome_of running fuel (suc round) (so_far ++ rows) (some next)
                ∙ sym (outcome_of-cons so_far rows pages ending))
      ]

  pages-stopped :
      (n : ℕ)
      → cancelled n ≡ true
      → (fuel round : ℕ) (before : Option M) → round ≤ n
      → length (fetch_next_page fetcher cancelled fuel round before).0 + round ≤ n
  unfolding fetch_next_page
  pages-stopped n stopped zero round before h = omega (arith, h)
  pages-stopped n stopped (suc fuel) round before h = elim (Bool-cases (cancelled round)) [
    | inl now ↦ elim (Fetched-cases (fetcher before)) [
      | inl (e, a) ↦ rw (a, fetch_next_page) (omega (arith, h))
      | inr (rows, next, a) ↦ rw (a, fetch_next_page, now) (omega (arith, h))
    ]
    | inr later ↦
        let before_n : suc round ≤ n = grind (arith, h, stopped, later) in
        elim (Fetched-cases (fetcher before)) [
          | inl (e, a) ↦ rw (a, fetch_next_page) (omega (arith, h))
          | inr (rows, none, a) ↦ rw (a, fetch_next_page, later) (omega (arith, before_n))
          | inr (rows, some next, a) ↦
              rw (a, fetch_next_page, later)
                (omega (arith, pages-stopped n stopped fuel (suc round) (some next) before_n))
        ]
  ]

  -- As long as the pager is not stopped, what it streams are the pieces of what exhaustivelyPage
  -- collects from the same fetcher: it finishes with the same rows, fails with the same error, or
  -- goes on for as long.
  pub start-outcome_of :
      ((n : ℕ) → cancelled n ≡ false)
      → (fuel : ℕ)
      → exhaustively_page fetcher cancelled fuel ≡ outcome_of [] (start fetcher cancelled fuel)
  unfolding exhaustively_page start
  start-outcome_of running fuel = fetch_next_page-outcome_of running fuel 0 [] none

  -- No page is handed on from an answer that finds the pager stopped, nor from any after it.
  start-stopped :
      (n : ℕ) → cancelled n ≡ true → (fuel : ℕ) → length (start fetcher cancelled fuel).0 ≤ n
  unfolding start
  start-stopped n stopped fuel = omega (arith, pages-stopped n stopped fuel 0 none (omega arith))
