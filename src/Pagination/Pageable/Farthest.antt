-- ===== src/Pagination/Pageable/Farthest.antt =====
-- web/js/pagination/make-pageable.js: how far the component loads pages ahead of the page shown.
use sigopt_server.Base.{ℕ, Bool, ℤ, pos, ◌≤ℤ◌, ◌<ℤ◌, int_laws}
use sigopt_server.Pagination.PagingBlock.{Increment, forward, backward}
use sigopt_server.Pagination.PagingBlock.Buttons.{
  Layout, both, first, second, neither, flags-Layout,
}
use sigopt_server.Pagination.Pageable.{farthest_for, calculate_farthest_page}

-- From the end where the loading starts, the page `farthest` comes no sooner than `page`.
abbrev pub Reaches : Increment → ℤ → ℤ → Type 0
Reaches forward at farthest = at ≤ℤ farthest
Reaches backward at farthest = farthest ≤ℤ at

module _ (at : ℤ) (n : ℕ) (h : pos 0 ≤ℤ at) (k : at <ℤ pos n) where
  farthest_for-Reaches :
      {f s : Bool} (i : Increment)
      → Layout n at f s
      → Reaches i at (farthest_for f s at n i)
        × (pos 0 ≤ℤ farthest_for f s at n i)
        × (farthest_for f s at n i <ℤ pos n)
  unfolding farthest_for
  farthest_for-Reaches forward (both a b) = (omega int_laws, omega int_laws, omega int_laws)
  farthest_for-Reaches forward (first a b) = (omega int_laws, omega int_laws, omega int_laws)
  farthest_for-Reaches forward (second a b) = (omega int_laws, omega int_laws, omega int_laws)
  farthest_for-Reaches forward (neither a) = (omega int_laws, omega int_laws, omega int_laws)
  farthest_for-Reaches backward (both a b) = (omega int_laws, omega int_laws, omega int_laws)
  farthest_for-Reaches backward (first a b) = (omega int_laws, omega int_laws, omega int_laws)
  farthest_for-Reaches backward (second a b) = (omega int_laws, omega int_laws, omega int_laws)
  farthest_for-Reaches backward (neither a) = (omega int_laws, omega int_laws, omega int_laws)

-- For a current page that exists, the farthest page to load is an existing page as well, and in
-- the direction of loading it does not come before the current page.
pub calculate_farthest_page-Reaches :
    (at : ℤ) (n : ℕ) (i : Increment)
    → pos 0 ≤ℤ at
    → at <ℤ pos n
    → Reaches i at (calculate_farthest_page at n i)
      × (pos 0 ≤ℤ calculate_farthest_page at n i)
      × (calculate_farthest_page at n i <ℤ pos n)
unfolding calculate_farthest_page
calculate_farthest_page-Reaches at n i h k = farthest_for-Reaches at n h k i (flags-Layout n at)
