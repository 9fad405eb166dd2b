-- ===== src/Pagination/Pageable/Reachable.antt =====
-- web/js/pagination/make-pageable.js: what holds of the component after any sequence of events.
use sigopt_server.Base.{
  ℕ, ◌≡◌, ◌≢◌, ◌⊎◌, append-nil, Bool, true, not, ◌&&◌, Option, List, [], ◌∷◌, ◌++◌, ℤ, All, is_some,
  arith, Bool-cases, ◌==◌, inl, inr,
}
use sigopt_server.Pagination.Pageable.{
  Request, Response, PagingState, lookup_page, receive_page, reload_pages, constructed,
}
use sigopt_server.Pagination.Pageable.Slots.{Filled}
use sigopt_server.Pagination.Pageable.Contiguous.{
  Pending, IsContiguous, navigate-IsContiguous, reverse-IsContiguous, refresh-IsContiguous,
  reload-IsContiguous, sort-IsContiguous, stored-IsContiguous,
}
use sigopt_server.Pagination.Pageable.World.{
  World, emit, Steady, Step, delivered, lost, navigated, reversed, refreshed, reloaded, sorted,
  unmounted, Reach, here, further,
}

All-split {ℓ κ} :
    {A : Type ℓ} (P : A → Type κ) (xs : List A) (y : A) (zs : List A)
    → All P (xs ++ y ∷ zs)
    → P y × All P (xs ++ zs)
All-split P [] y zs h = h
All-split P (x ∷ xs) y zs (p, h) = let (q, r) = All-split P xs y zs h in (q, (p, r))

module _ {A C : Type 0} (page_size : Option ℕ) where
  receive-IsContiguous :
      (req : Request C) (response : Response A C) (s : PagingState A C) (mounted : Bool)
      (rs : List (Request C))
      → Steady page_size s response
      → Pending s req
      → Filled s.increment s.num_pages s.page_data
      → All (Pending s) rs
      → IsContiguous (emit (receive_page page_size req response s) mounted rs)
  unfolding receive_page
  receive-IsContiguous req response s mounted rs steady asked filled pending =
      elim (Bool-cases
        (s.paging_nonce == req.prev_nonce && not (is_some (lookup_page req.index s.page_data)))) [
          | inl e ↦ rw e (
              stored-IsContiguous page_size req response s mounted rs steady (ground arith)
                (ground arith) asked filled pending)
          | inr e ↦ rw e (record { filled = filled; pending = rw append-nil pending })
        ]

  -- Every event keeps the loaded pages contiguous.
  Step-IsContiguous : {w w' : World A C} → Step page_size w w' → IsContiguous w → IsContiguous w'
  Step-IsContiguous {w} {w'} (delivered rs req qs response e steady e') v =
      let (asked, pending) = All-split _ rs req qs (rw e at v.pending) in
      elim (Bool-cases w.mounted) [
        | inl m ↦
            rw (e', m)
              (receive-IsContiguous req response w.state true (rs ++ qs) steady asked v.filled
                pending)
        | inr m ↦ rw (e', m) (record { filled = v.filled; pending = pending })
      ]
  Step-IsContiguous {w} {w'} (lost rs req qs e e') v =
      rw e' (record { filled = v.filled; pending = (All-split _ rs req qs (rw e at v.pending)).1 })
  Step-IsContiguous {w} {w'} (navigated n b e') v = rw e' (navigate-IsContiguous page_size n b w v)
  Step-IsContiguous {w} {w'} (reversed nonce h e') v =
      rw e' (reverse-IsContiguous page_size nonce w h)
  Step-IsContiguous {w} {w'} (refreshed nonce h e') v =
      rw e' (refresh-IsContiguous page_size nonce w h)
  Step-IsContiguous {w} {w'} (reloaded start nonce h e') v =
      rw e' (reload-IsContiguous page_size start nonce w h)
  Step-IsContiguous {w} {w'} (sorted asc nonce h e') v =
      rw e' (sort-IsContiguous page_size asc nonce w h)
  Step-IsContiguous {w} {w'} (unmounted e') v =
      rw e' (record { filled = v.filled; pending = v.pending })

  Reach-IsContiguous : {w w' : World A C} → IsContiguous w → Reach page_size w w' → IsContiguous w'
  Reach-IsContiguous v here = v
  Reach-IsContiguous v (further r step) = Step-IsContiguous step (Reach-IsContiguous v r)

  -- The component just after mounting.
  abbrev pub mounted_world : Option ℤ → ℕ → ℕ → World A C
  mounted_world start_page nonce nonce' =
      emit (reload_pages page_size start_page nonce' (constructed start_page nonce)) true []

  -- In every world that is reached from a mounted component, by responses in any order, lost
  -- requests, page turns, changes of direction and of sorting, refreshes and reloads with fresh
  -- nonces, and unmounting, where the server keeps the number of pages while pages load backwards:
  -- the loaded pages are exactly the first ones of the loading order, none is missing between
  -- them or doubled, and each outstanding request that is not stale asks for one of them or the next.
  pub reached-IsContiguous :
      (start_page : Option ℤ) (nonce nonce' : ℕ) (w : World A C)
      → Reach page_size (mounted_world start_page nonce nonce') w
      → IsContiguous w
  reached-IsContiguous start_page nonce nonce' w = Reach-IsContiguous (
      reload-IsContiguous page_size start_page nonce'
        (record { state = constructed start_page nonce; mounted = true; outstanding = [] }) tt)

-- A response whose nonce is not the state's, or for a page that is loaded, changes and calls nothing.
pub receive_page-stale :
    {A C : Type 0} (page_size : Option ℕ) (req : Request C) (response : Response A C)
    (s : PagingState A C)
    → (req.prev_nonce ≢ s.paging_nonce) ⊎ (is_some (lookup_page req.index s.page_data) ≡ true)
    → receive_page page_size req response s ≡ (s, [])
unfolding receive_page
receive_page-stale page_size req response s h = ground arith
