-- ===== src/Pagination/Pageable/Tests.antt =====
-- web/js/pagination/make-pageable.js: a table of three rows in pages of two, and its theorems there.
use sigopt_server.Base.{ℕ, refl, false, true, none, some, [], ◌∷◌, pos}
use sigopt_server.Pagination.Pageable.{
  Request, before, Response, constructed, initial_paging_state, lookup_page, receive_page,
  page_kicker, page_to_fill, fill_page, store_page, clamp_page, update_farthest, reload_pages,
  kick_paging, should_fill, get_page_with_before, get_ascending, request_limit,
  calculate_farthest_page, navigate_to_page, farthest_for,
}
use sigopt_server.Pagination.Pageable.World.{
  World, emit, Reach, here, further, delivered, navigated,
}
use sigopt_server.Pagination.Pageable.Reachable.{mounted_world, reached-IsContiguous}
use sigopt_server.Pagination.Pageable.Contiguous.{IsContiguous}

abbrev mounted : World ℕ ℕ
mounted = mounted_world (some 2) (some (pos 0)) 1 2

abbrev first_request : Request ℕ
first_request = record {
  paging = before none;
  limit = 2;
  ascending = false;
  index = pos 0;
  prev_nonce = 2;
}

abbrev first_response : Response ℕ ℕ
first_response = record { rows = 7 ∷ 8 ∷ []; count = 3; after = none; before = some 8 }

abbrev loaded : World ℕ ℕ
loaded = emit (receive_page (some 2) first_request first_response mounted.state) true []

abbrev turned : World ℕ ℕ
turned = emit (navigate_to_page (some 2) (pos 1) true loaded.state) true loaded.outstanding

abbrev path : Reach (some 2) mounted turned
unfolding reload_pages constructed initial_paging_state kick_paging page_kicker should_fill
    page_to_fill fill_page request_limit get_ascending get_page_with_before lookup_page receive_page
    clamp_page store_page update_farthest calculate_farthest_page farthest_for
path =
    further (further here (delivered [] first_request [] first_response refl (λ e. cc) refl))
      (navigated (pos 1) true refl)

reached-IsContiguous_example : IsContiguous turned
reached-IsContiguous_example = reached-IsContiguous (some 2) (some (pos 0)) 1 2 turned path
