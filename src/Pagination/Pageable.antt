-- ===== src/Pagination/Pageable.antt =====
-- web/js/pagination/make-pageable.js: the component that loads the pages of a table one by one.
-- A `setState` with its callback is one step, which returns the new state and what the step calls:
-- the page fetcher, and the prop `pageUpdated`. `Math.random()` is an argument, the nonce. `A` is
-- the type of the rows and `C` that of the cursors, which the server chooses and which are truthy.
pub mod Farthest
pub mod World
pub mod Slots
pub mod Reachable
pub mod Contiguous
pub mod Receive
mod Tests
use sigopt_server.Base.{
  ℕ, zero, ◌+◌, ◌-◌, ◌/◌, ◌%◌, Bool, true, false, not, ◌&&◌, ◌||◌, Option, none, some, List, [],
  ◌∷◌, ◌++◌, reverse, length, ℤ, pos, ◌+ℤ◌, ◌-ℤ◌, leb_ℤ, eqb_ℤ, ◌==◌, is_some, get_or,
  if◌then◌else◌,
}
use sigopt_server.Pagination.PagingBlock.{
  Increment, forward, backward, is_forward, num_pages_each_side, calculate_ellipsis_flags,
  BlockProps,
}

-- `{before: …}` or `{after: …}`.
pub data Marker (C : Type 0) : Type 0 where
  before after : Option C → Marker C

-- A call of the page fetcher, with what its callback remembers.
pub record Request (C : Type 0) : Type 0 where
  pub paging : Marker C
  pub limit : ℕ
  pub ascending : Bool
  pub index : ℤ
  pub prev_nonce : ℕ

pub record Response (A C : Type 0) : Type 0 where
  pub rows : List A
  pub count : ℕ
  pub after : Option C
  pub before : Option C

-- What a step calls; `page_updated` is a call of the prop with the page and `changeHistory`.
pub data Effect (C : Type 0) : Type 0 where
  fetch : Request C → Effect C
  page_updated : ℤ → Bool → Effect C

pub record PagingState (A C : Type 0) : Type 0 where
  pub after : Option C
  pub before : Option C
  pub farthest_page : Option ℤ
  pub increment : Increment
  pub is_paging : Bool
  pub num_pages : ℕ
  pub num_results : Option ℕ
  pub page : ℤ
  pub page_data : List (ℤ × List A)
  pub paging_nonce : ℕ
  pub last_seen_page : Option (List A)
  pub sort_ascending : Bool

pub lookup_page : {A : Type 0} → ℤ → List (ℤ × List A) → Option (List A)
lookup_page i [] = none
lookup_page i ((j, rows) ∷ pages) = if eqb_ℤ j i then some rows else lookup_page i pages

-- `this.props.pageSize || 20`.
abbrev pub page_size_or_default : Option ℕ → ℕ
page_size_or_default none = 20
page_size_or_default (some n) = if n == 0 then 20 else n

-- `Math.ceil(count / pageSize)`, for a page size that is not 0.
abbrev pub pages_of : ℕ → ℕ → ℕ
pages_of count size = (count + (size - 1)) / size

abbrev pub first_or_last : Increment → ℤ → ℤ → ℤ
first_or_last i x y = if is_forward i then x else y

pub farthest_for : Bool → Bool → ℤ → ℕ → Increment → ℤ
farthest_for true true page_index num_pages i =
    first_or_last i (page_index +ℤ pos 1) (page_index -ℤ pos 1)
farthest_for true false page_index num_pages i =
    let last = pos num_pages -ℤ pos 1 in
    first_or_last i last (last -ℤ pos num_pages_each_side -ℤ pos 1)
farthest_for false true page_index num_pages i =
    first_or_last i (pos (num_pages_each_side + 1)) (pos 0)
farthest_for false false page_index num_pages i = first_or_last i (pos num_pages -ℤ pos 1) (pos 0)

-- `_calculateFarthestPage`.
pub calculate_farthest_page : ℤ → ℕ → Increment → ℤ
calculate_farthest_page page_index num_pages i =
    let (first_ellipsis, second_ellipsis) = calculate_ellipsis_flags num_pages page_index in
    farthest_for first_ellipsis second_ellipsis page_index num_pages i

abbrev pub opposite : Increment → Increment
opposite forward = backward
opposite backward = forward

pub total_rows : {A : Type 0} → List (ℤ × List A) → ℕ
total_rows [] = 0
total_rows ((i, rows) ∷ pages) = length rows + total_rows pages

module _ {A C : Type 0} where
  -- `_initialPagingState` put into the state; it leaves `lastSeenPage` and `sortAscending` alone.
  pub initial_paging_state : Option ℤ → ℕ → PagingState A C → PagingState A C
  initial_paging_state start_page nonce s = record s {
    after = none;
    before = none;
    farthest_page = none;
    increment = forward;
    is_paging = true;
    num_pages = 0;
    num_results = none;
    page = get_or start_page (pos 0);
    page_data = [];
    paging_nonce = nonce;
  }

  -- The state that the constructor sets.
  pub constructed : Option ℤ → ℕ → PagingState A C
  constructed start_page nonce = record {
    after = none;
    before = none;
    farthest_page = none;
    increment = forward;
    is_paging = true;
    num_pages = 0;
    num_results = none;
    page = get_or start_page (pos 0);
    page_data = [];
    paging_nonce = nonce;
    last_seen_page = none;
    sort_ascending = false;
  }

  pub get_page_with_before : PagingState A C → Bool
  get_page_with_before s =
      (s.sort_ascending && not (is_forward s.increment))
      || (not s.sort_ascending && is_forward s.increment)

  pub get_ascending : PagingState A C → Bool
  get_ascending s =
      (s.sort_ascending && is_forward s.increment)
      || (not s.sort_ascending && not (is_forward s.increment))

  -- `limitPageSize`, then `pageSize`.
  pub request_limit : Option ℕ → ℤ → PagingState A C → ℕ
  request_limit page_size index s =
      let normal = page_size_or_default page_size in
      let rest = get_or s.num_results 0 % normal in
      if not (is_forward s.increment) && (eqb_ℤ index (pos s.num_pages -ℤ pos 1) && not (rest == 0))
      then rest
      else normal

  pub fill_page : Option ℕ → ℤ → PagingState A C → Request C
  fill_page page_size index s = record {
    paging = if get_page_with_before s then before s.before else after s.after;
    limit = request_limit page_size index s;
    ascending = get_ascending s;
    index = index;
    prev_nonce = s.paging_nonce;
  }

  -- `pageToFill`.
  pub page_to_fill : PagingState A C → ℤ
  page_to_fill s =
      let num_items_loaded = pos (length s.page_data) in
      if is_forward s.increment
      then num_items_loaded
      else pos s.num_pages -ℤ pos 1 -ℤ num_items_loaded

  -- `!this.state.farthestPage || continueKicking`: no farthest page, or page 0, counts as none.
  pub should_fill : ℤ → PagingState A C → Bool
  should_fill index s = elim s.farthest_page [
    | none ↦ true
    | some farthest ↦
        eqb_ℤ farthest (pos 0)
        || (if is_forward s.increment then leb_ℤ index farthest else leb_ℤ farthest index)
  ]

  -- The function that `_makePageKicker(nonce)` returns.
  pub page_kicker : Option ℕ → ℕ → PagingState A C → List (Effect C)
  page_kicker page_size nonce s =
      if s.is_paging && nonce == s.paging_nonce
      then (if should_fill (page_to_fill s) s
          then fetch (fill_page page_size (page_to_fill s) s) ∷ []
          else [])
      else []

  pub kick_paging : Option ℕ → PagingState A C → List (Effect C)
  kick_paging page_size s = page_kicker page_size s.paging_nonce s

  -- The mounting and the prop `reloadPages`.
  pub reload_pages : Option ℕ → Option ℤ → ℕ → PagingState A C → PagingState A C × List (Effect C)
  reload_pages page_size start_page nonce s =
      let reset = record (initial_paging_state (some (get_or start_page (pos 0))) nonce s) {
        last_seen_page = lookup_page s.page s.page_data;
      } in
      (reset, kick_paging page_size reset)

  pub refresh_page : Option ℕ → ℕ → PagingState A C → PagingState A C × List (Effect C)
  refresh_page page_size nonce s =
      let reset = record (initial_paging_state (some (pos 0)) nonce s) {
        last_seen_page = lookup_page s.page s.page_data;
        page = s.page;
      } in
      (reset, kick_paging page_size reset)

  pub set_sort_ascending : Option ℕ → Bool → ℕ → PagingState A C → PagingState A C × List (Effect C)
  set_sort_ascending page_size ascending nonce s =
      reload_pages page_size none nonce (record s { sort_ascending = ascending })

  -- The function that `_receivePage` gives to `setState`, without the page that is out of range.
  pub store_page : Option ℕ → Request C → Response A C → PagingState A C → PagingState A C
  store_page page_size req response s = record s {
    page_data =
        (req.index, (if is_forward s.increment then response.rows else reverse response.rows))
        ∷ s.page_data;
    after = response.after;
    before = response.before;
    num_pages = pages_of response.count (page_size_or_default page_size);
    num_results = some response.count;
    is_paging = if get_page_with_before s then is_some response.before else is_some response.after;
  }

  -- A page past the end becomes page 0, and the URL is told.
  pub clamp_page : PagingState A C → PagingState A C × List (Effect C)
  clamp_page s =
      if leb_ℤ (pos s.num_pages) s.page
      then (record s { page = pos 0 }, page_updated (pos 0) false ∷ [])
      else (s, [])

  pub update_farthest : PagingState A C → PagingState A C
  update_farthest s = record s {
    farthest_page = some (calculate_farthest_page s.page s.num_pages s.increment);
  }

  -- `_receivePage`, of a component that is mounted.
  pub receive_page :
      Option ℕ → Request C → Response A C → PagingState A C → PagingState A C × List (Effect C)
  receive_page page_size req response s =
      if s.paging_nonce == req.prev_nonce && not (is_some (lookup_page req.index s.page_data))
      then (let (clamped, told) = clamp_page (store_page page_size req response s) in
          let next = update_farthest clamped in
          (next, told ++ page_kicker page_size req.prev_nonce next))
      else (s, [])

  pub navigate_to_page : Option ℕ → ℤ → Bool → PagingState A C → PagingState A C × List (Effect C)
  navigate_to_page page_size page_number change_history s =
      let next = record s {
        page = page_number;
        farthest_page = some (calculate_farthest_page page_number s.num_pages s.increment);
      } in
      (next, kick_paging page_size next ++ page_updated page_number change_history ∷ [])

  pub turn_round : ℕ → PagingState A C → PagingState A C
  turn_round nonce s =
      let increment = opposite s.increment in
      let page = first_or_last increment (pos 0) (pos s.num_pages -ℤ pos 1) in
      record (initial_paging_state (some (pos 0)) nonce s) {
        last_seen_page = lookup_page s.page s.page_data;
        increment = increment;
        page = page;
        num_pages = s.num_pages;
        farthest_page = some (calculate_farthest_page page s.num_pages increment);
        num_results = s.num_results;
      }

  -- `_reverse`.
  pub reverse_paging : Option ℕ → ℕ → PagingState A C → PagingState A C × List (Effect C)
  unfolding turn_round
  reverse_paging page_size nonce s =
      let next = turn_round nonce s in
      (next, kick_paging page_size next ++ page_updated next.page true ∷ [])

  -- The props that `render` hands to the paging control.
  pub block_props : PagingState A C → BlockProps
  unfolding lookup_page
  block_props s =
      let shown = is_some (lookup_page s.page s.page_data) in
      record {
        has_next_page = shown && is_some (lookup_page (s.page +ℤ pos 1) s.page_data);
        has_previous_page = shown && is_some (lookup_page (s.page -ℤ pos 1) s.page_data);
        increment = s.increment;
        is_empty = not s.is_paging && total_rows s.page_data == 0;
        is_paging = s.is_paging;
        num_pages = s.num_pages;
        page_number = s.page;
      }
