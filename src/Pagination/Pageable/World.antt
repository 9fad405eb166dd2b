-- ===== src/Pagination/Pageable/World.antt =====
-- web/js/pagination/make-pageable.js: the component among its callers. Responses arrive in any
-- order and late, requests can fail silently, and the user turns pages and directions meanwhile.
use sigopt_server.Base.{
  ℕ, ◌≡◌, ◌≢◌, Bool, false, Option, List, [], ◌∷◌, ◌++◌, ℤ, All, if◌then◌else◌,
}
use sigopt_server.Pagination.PagingBlock.{backward}
use sigopt_server.Pagination.Pageable.{
  Request, Response, Effect, fetch, page_updated, PagingState, page_size_or_default, pages_of,
  receive_page, navigate_to_page, reverse_paging, refresh_page, reload_pages, set_sort_ascending,
}

-- The component's state, whether it is mounted, and the requests not answered yet.
pub record World (A C : Type 0) : Type 0 where
  pub state : PagingState A C
  pub mounted : Bool
  pub outstanding : List (Request C)

abbrev pub requests : {C : Type 0} → List (Effect C) → List (Request C)
requests [] = []
requests (fetch r ∷ effects) = r ∷ requests effects
requests (page_updated n b ∷ effects) = requests effects

module _ {A C : Type 0} where
  abbrev pub emit : PagingState A C × List (Effect C) → Bool → List (Request C) → World A C
  emit (s, effects) mounted rs = record {
    state = s;
    mounted = mounted;
    outstanding = rs ++ requests effects;
  }

  -- While pages load backwards from the last one, the server does not change their number.
  abbrev pub Steady : Option ℕ → PagingState A C → Response A C → Type 0
  Steady page_size s response =
      s.increment ≡ backward
      → pages_of response.count (page_size_or_default page_size) ≡ s.num_pages

  -- No outstanding request has the nonce: `Math.random()` gave a number not drawn before.
  abbrev pub IsFresh : ℕ → World A C → Type 0
  IsFresh nonce w = All (λ r. r.prev_nonce ≢ nonce) w.outstanding

module _ {A C : Type 0} (page_size : Option ℕ) where
  pub data Step (w w' : World A C) : Type 0 where
    delivered :
        (rs : List (Request C)) (req : Request C) (qs : List (Request C)) (response : Response A C)
        → w.outstanding ≡ rs ++ req ∷ qs
        → Steady page_size w.state response
        → w' ≡ (
            if w.mounted
            then emit (receive_page page_size req response w.state) w.mounted (rs ++ qs)
            else record w { outstanding = rs ++ qs })
        → Step w w'
    lost :
        (rs : List (Request C)) (req : Request C) (qs : List (Request C))
        → w.outstanding ≡ rs ++ req ∷ qs
        → w' ≡ record w { outstanding = rs ++ qs }
        → Step w w'
    navigated :
        (n : ℤ) (change_history : Bool)
        → w' ≡ emit (navigate_to_page page_size n change_history w.state) w.mounted w.outstanding
        → Step w w'
    reversed :
        (nonce : ℕ)
        → IsFresh nonce w
        → w' ≡ emit (reverse_paging page_size nonce w.state) w.mounted w.outstanding
        → Step w w'
    refreshed :
        (nonce : ℕ)
        → IsFresh nonce w
        → w' ≡ emit (refresh_page page_size nonce w.state) w.mounted w.outstanding
        → Step w w'
    reloaded :
        (start_page : Option ℤ) (nonce : ℕ)
        → IsFresh nonce w
        → w' ≡ emit (reload_pages page_size start_page nonce w.state) w.mounted w.outstanding
        → Step w w'
    sorted :
        (ascending : Bool) (nonce : ℕ)
        → IsFresh nonce w
        → w' ≡ emit (set_sort_ascending page_size ascending nonce w.state) w.mounted w.outstanding
        → Step w w'
    unmounted : w' ≡ record w { mounted = false } → Step w w'

  pub data Reach (w : World A C) : World A C → Type 0 where
    here : Reach w w
    further : {u v : World A C} → Reach w u → Step u v → Reach w v
