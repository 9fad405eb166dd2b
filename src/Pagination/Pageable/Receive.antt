-- ===== src/Pagination/Pageable/Receive.antt =====
-- web/js/pagination/make-pageable.js: what a response stores.
use sigopt_server.Base.{
  ℕ, ◌≡◌, ◌≢◌, ◌⊎◌, Option, none, some, reverse, ℤ, pos, ◌<ℤ◌, eqb_ℤ_iff, arith, if◌then◌else◌,
}
use sigopt_server.Pagination.PagingBlock.{is_forward}
use sigopt_server.Pagination.Pageable.{
  Request, Response, PagingState, lookup_page, store_page, clamp_page, update_farthest,
  receive_page,
}

module _ {A C : Type 0} (page_size : Option ℕ) (req : Request C) (response : Response A C)
    (s : PagingState A C) where
  -- The response to a current request for a page that is not loaded stores the rows of that page,
  -- in reading order, and keeps the other pages; the page shown is then one of the pages that
  -- there are, or page 0.
  pub receive_page-stores :
      req.prev_nonce ≡ s.paging_nonce
      → lookup_page req.index s.page_data ≡ none
      → let next = (receive_page page_size req response s).0 in
        (lookup_page req.index next.page_data
          ≡ some (if is_forward s.increment then response.rows else reverse response.rows))
        × ((i : ℤ) → i ≢ req.index → lookup_page i next.page_data ≡ lookup_page i s.page_data)
        × ((next.page <ℤ pos next.num_pages) ⊎ (next.page ≡ pos 0))
  unfolding receive_page clamp_page store_page update_farthest lookup_page
  receive_page-stores fresh absent = (
    ground (arith, eqb_ℤ_iff req.index req.index),
    (λ i ne. ground (arith, eqb_ℤ_iff req.index i)),
    ground arith,
  )
