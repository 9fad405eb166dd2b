-- ===== src/Pagination/Pageable/Contiguous.antt =====
-- web/js/pagination/make-pageable.js: the loaded pages have no gap, whatever the order of events.
use sigopt_server.Base.{
  ℕ, ◌≤◌, ◌≡◌, refl, ap, sym, ◌∙◌, ◌⊎◌, append-nil, ◌≢◌, inl, inr, Bool, true, false, Option, none,
  List, [], ◌∷◌, ◌++◌, ℤ, pos, ◌-ℤ◌, length, All, All-append, is_some, arith, if◌then◌else◌,
}
use sigopt_server.Pagination.PagingBlock.{Increment, forward, backward, is_forward}
use sigopt_server.Pagination.Pageable.{
  Request, Response, Effect, fetch, page_updated, PagingState, lookup_page, page_kicker,
  page_to_fill, fill_page, store_page, clamp_page, update_farthest, navigate_to_page, turn_round,
  reverse_paging, refresh_page, reload_pages, set_sort_ascending, kick_paging, initial_paging_state,
  page_size_or_default, pages_of,
}
use sigopt_server.Pagination.Pageable.Slots.{slot, Filled, slot_same, Filled_same, next_of_absent}
use sigopt_server.Pagination.Pageable.World.{World, requests, emit, Steady, IsFresh}

requests-append :
    {C : Type 0} (xs ys : List (Effect C)) → requests (xs ++ ys) ≡ requests xs ++ requests ys
requests-append [] ys = refl
requests-append (fetch r ∷ xs) ys = ap (r ∷◌) (requests-append xs ys)
requests-append (page_updated n b ∷ xs) ys = requests-append xs ys

module _ {A C : Type 0} where
  abbrev pub Pending : PagingState A C → Request C → Type 0
  Pending s r =
      r.prev_nonce ≡ s.paging_nonce
      → (j : ℕ) × (j ≤ length s.page_data) × (r.index ≡ slot s.increment s.num_pages j)

  -- The loaded pages are the first ones of the loading order, and each outstanding request that
  -- is not stale asks for one of them or for the next one.
  pub record IsContiguous (w : World A C) : Type 0 where
    pub filled : Filled w.state.increment w.state.num_pages w.state.page_data
    pub pending : All (Pending w.state) w.outstanding

  page_to_fill-slot :
      (s : PagingState A C) → page_to_fill s ≡ slot s.increment s.num_pages (length s.page_data)
  unfolding page_to_fill
  page_to_fill-slot s = go s.increment
    where
      go :
          (i : Increment)
          → (if is_forward i
              then pos (length s.page_data)
              else pos s.num_pages -ℤ pos 1 -ℤ pos (length s.page_data))
            ≡ slot i s.num_pages (length s.page_data)
      go forward = refl
      go backward = refl

  page_kicker-Pending :
      (page_size : Option ℕ) (nonce : ℕ) (s : PagingState A C)
      → All (Pending s) (requests (page_kicker page_size nonce s))
  unfolding page_kicker fill_page
  page_kicker-Pending page_size nonce s =
      let next : (j : ℕ) × (j ≤ length s.page_data)
          × (page_to_fill s ≡ slot s.increment s.num_pages j) =
        (length s.page_data, omega arith, page_to_fill-slot s) in
      ground (arith, next)

  -- What is fetched by a step that ends with `next` and calls `pageUpdated` last.
  kicked-Pending :
      (page_size : Option ℕ) (next : PagingState A C) (n : ℤ) (b : Bool) (rs : List (Request C))
      → All (Pending next) rs
      → All (Pending next) (rs ++ requests (kick_paging page_size next ++ page_updated n b ∷ []))
  unfolding kick_paging
  kicked-Pending page_size next n b rs h = All-append _ rs _ h (
      rw (requests-append (page_kicker page_size next.paging_nonce next), append-nil)
        (page_kicker-Pending page_size next.paging_nonce next))

  -- Requests whose nonce is not the state's are stale, so nothing is asked of them.
  stale-Pending :
      (s : PagingState A C) (rs : List (Request C))
      → All (λ r. r.prev_nonce ≢ s.paging_nonce) rs
      → All (Pending s) rs
  stale-Pending s [] h = tt
  stale-Pending s (r ∷ rs) (ne, h) = ((λ e. absurd (ne e)), stale-Pending s rs h)

  pub navigate-IsContiguous :
      (page_size : Option ℕ) (n : ℤ) (b : Bool) (w : World A C)
      → IsContiguous w
      → IsContiguous (emit (navigate_to_page page_size n b w.state) w.mounted w.outstanding)
  unfolding navigate_to_page
  navigate-IsContiguous page_size n b w v = record {
    filled = v.filled;
    pending = kicked-Pending page_size _ n b w.outstanding v.pending;
  }

  pub reverse-IsContiguous :
      (page_size : Option ℕ) (nonce : ℕ) (w : World A C)
      → IsFresh nonce w
      → IsContiguous (emit (reverse_paging page_size nonce w.state) w.mounted w.outstanding)
  unfolding reverse_paging turn_round initial_paging_state
  reverse-IsContiguous page_size nonce w h = record {
    filled = tt;
    pending =
        (let next = turn_round nonce w.state in
          kicked-Pending page_size next next.page true w.outstanding
            (stale-Pending next w.outstanding h));
  }

  pub refresh-IsContiguous :
      (page_size : Option ℕ) (nonce : ℕ) (w : World A C)
      → IsFresh nonce w
      → IsContiguous (emit (refresh_page page_size nonce w.state) w.mounted w.outstanding)
  unfolding refresh_page initial_paging_state kick_paging
  refresh-IsContiguous page_size nonce w h =
      let next = (refresh_page page_size nonce w.state).0 in
      record {
        filled = tt;
        pending =
            All-append _ w.outstanding _ (stale-Pending next w.outstanding h)
              (page_kicker-Pending page_size nonce next);
      }

  pub reload-IsContiguous :
      (page_size : Option ℕ) (start : Option ℤ) (nonce : ℕ) (w : World A C)
      → IsFresh nonce w
      → IsContiguous (emit (reload_pages page_size start nonce w.state) w.mounted w.outstanding)
  unfolding reload_pages initial_paging_state kick_paging
  reload-IsContiguous page_size start nonce w h =
      let next = (reload_pages page_size start nonce w.state).0 in
      record {
        filled = tt;
        pending =
            All-append _ w.outstanding _ (stale-Pending next w.outstanding h)
              (page_kicker-Pending page_size nonce next);
      }

  pub sort-IsContiguous :
      (page_size : Option ℕ) (ascending : Bool) (nonce : ℕ) (w : World A C)
      → IsFresh nonce w
      → IsContiguous
          (emit (set_sort_ascending page_size ascending nonce w.state) w.mounted w.outstanding)
  unfolding set_sort_ascending
  sort-IsContiguous page_size ascending nonce w h =
      reload-IsContiguous page_size none nonce
        (record w { state = record w.state { sort_ascending = ascending } }) h

  clamp_page-cases :
      (s : PagingState A C)
      → (clamp_page s ≡ (s, []))
        ⊎ (clamp_page s ≡ (record s { page = pos 0 }, page_updated (pos 0) false ∷ []))
  unfolding clamp_page
  clamp_page-cases s = ground arith

  -- A request that is still pending once the page that it may ask for has been stored.
  stored-Pending :
      (s s' : PagingState A C) (index : ℤ) (rows : List A)
      → s'.page_data ≡ (index, rows) ∷ s.page_data
      → s'.paging_nonce ≡ s.paging_nonce
      → ((j : ℕ) → slot s'.increment s'.num_pages j ≡ slot s.increment s.num_pages j)
      → (rs : List (Request C)) → All (Pending s) rs
      → All (Pending s') rs
  stored-Pending s s' index rows e n same [] h = tt
  stored-Pending s s' index rows e n same (r ∷ rs) (this, later) = (
    (λ q. let (j, le, at) = this (q ∙ n) in (j, rw e (omega arith), at ∙ sym (same j))),
    stored-Pending s s' index rows e n same rs later,
  )

  told-Pending : (s next : PagingState A C) → All (Pending next) (requests (clamp_page s).1)
  told-Pending s next = elim (clamp_page-cases s) [ inl e ↦ rw e tt | inr e ↦ rw e tt ]

  -- The state after a page has been stored, its number clamped and the farthest page updated.
  abbrev pub after_store : Option ℕ → Request C → Response A C → PagingState A C → PagingState A C
  after_store page_size req response s =
      update_farthest (clamp_page (store_page page_size req response s)).0

  record Stored (req : Request C) (response : Response A C) (size : ℕ) (s s' : PagingState A C)
      : Type 0 where
    rows : List A
    data_eq : s'.page_data ≡ (req.index, rows) ∷ s.page_data
    nonce_eq : s'.paging_nonce ≡ s.paging_nonce
    increment_eq : s'.increment ≡ s.increment
    num_pages_eq : s'.num_pages ≡ pages_of response.count size

  after_store-Stored :
      (page_size : Option ℕ) (req : Request C) (response : Response A C) (s : PagingState A C)
      → Stored req response
          (page_size_or_default page_size)
          s
          (after_store page_size req response s)
  unfolding update_farthest store_page
  after_store-Stored page_size req response s =
      elim (clamp_page-cases (store_page page_size req response s)) [
        | inl e ↦
            rw (e, update_farthest)
              (record {
                rows = _;
                data_eq = refl;
                nonce_eq = refl;
                increment_eq = refl;
                num_pages_eq = refl;
              })
        | inr e ↦
            rw (e, update_farthest)
              (record {
                rows = _;
                data_eq = refl;
                nonce_eq = refl;
                increment_eq = refl;
                num_pages_eq = refl;
              })
      ]

  pub stored-IsContiguous :
      (page_size : Option ℕ) (req : Request C) (response : Response A C) (s : PagingState A C)
      (mounted : Bool) (rs : List (Request C))
      → Steady page_size s response
      → s.paging_nonce ≡ req.prev_nonce
      → is_some (lookup_page req.index s.page_data) ≡ false
      → Pending s req
      → Filled s.increment s.num_pages s.page_data
      → All (Pending s) rs
      → IsContiguous (
          emit
            (
              after_store page_size req response s,
              (clamp_page (store_page page_size req response s)).1
                  ++ page_kicker page_size req.prev_nonce (after_store page_size req response s),
            )
            mounted
            rs)
  stored-IsContiguous page_size req response s mounted rs steady nonce absent asked filled pending =
      let next = after_store page_size req response s in
      let st = after_store-Stored page_size req response s in
      let (j, le, at) = asked (sym nonce) in
      let same : (j : ℕ) → slot next.increment next.num_pages j ≡ slot s.increment s.num_pages j =
        λ j. rw (st.increment_eq, st.num_pages_eq) (slot_same s.increment _ s.num_pages steady j) in
      let index_eq =
        next_of_absent s.increment s.num_pages j s.page_data req.index filled absent le at in
      record {
        filled = rw st.data_eq (
          index_eq ∙ sym (same (length s.page_data)),
          Filled_same s.increment next.increment s.num_pages next.num_pages s.page_data same filled,
        );
        pending =
            All-append _ rs _
              (stored-Pending s next req.index st.rows st.data_eq st.nonce_eq same rs pending)
              (rw (requests-append (clamp_page (store_page page_size req response s)).1) (
                All-append _ (requests (clamp_page (store_page page_size req response s)).1) _
                  (told-Pending (store_page page_size req response s) next)
                  (page_kicker-Pending page_size req.prev_nonce next)));
      }
