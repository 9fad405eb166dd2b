-- ===== src/Net/ArrayPager.antt =====
-- web/js/net/list.js: a fetcher that pages over an array. `paging.limit` is a number that may be
-- negative; markers are positions in the array, and `null` and `undefined` differ for `after`.
use sigopt_server.Base.{
  ℕ, ◌+◌, ◌-◌, Option, none, some, List, reverse, length, slice, ℤ, pos, negsuc, ltb, leb, get_or,
  if◌then◌else◌,
}

-- An argument that may be left out, or null.
pub data Arg : Type 0 where
  undefined null : Arg
  value : ℕ → Arg

pub record Paging : Type 0 where
  pub limit : Option ℤ
  pub before : Arg
  pub after : Arg

-- The answer's `count`, `data` and `paging`; a marker is none if it is null or undefined.
pub record Page (A : Type 0) : Type 0 where
  pub count : ℕ
  pub rows : List A
  pub before : Option ℕ
  pub after : Option ℕ

-- The call of `success`, or of `error`.
pub data Answer (A : Type 0) : Type 0 where
  success : Page A → Answer A
  error : Answer A

-- `paging.before || 0`.
abbrev pub or_zero : Arg → ℕ
or_zero undefined = 0
or_zero null = 0
or_zero (value n) = n

module _ {A : Type 0} where
  unfoldable pub page_before : List A → ℕ → ℕ → Page A
  page_before list page_size before =
      let next_page = before + page_size in
      let new_before = if ltb next_page (length list) then some next_page else none in
      record {
        count = length list;
        rows = slice list before (get_or new_before (length list));
        before = new_before;
        after = none;
      }

  unfoldable pub page_after : List A → ℕ → ℕ → Page A
  page_after list page_size after =
      let new_after = if leb page_size after then some (after - page_size) else none in
      record {
        count = length list;
        rows = reverse (slice list (get_or new_after 0) after);
        before = none;
        after = new_after;
      }

  -- The last part of the function that `arrayPager` returns, for a page size that is not negative.
  unfoldable pub page_of : List A → ℕ → Paging → Page A
  page_of list page_size paging = elim paging.after [
    | undefined ↦ page_before list page_size (or_zero paging.before)
    | null ↦ page_after list page_size (length list)
    | value after ↦ page_after list page_size after
  ]

  unfoldable pub array_pager : List A → Paging → Answer A
  array_pager list paging = elim (get_or paging.limit (pos (length list))) [
    | pos page_size ↦ success (page_of list page_size paging)
    | negsuc n ↦ error
  ]
