-- ===== src/Pagination/PagingBlock.antt =====
-- web/js/pagination/paging-block.js: which buttons the paging control shows, and what a click on
-- each of them does. Pages are counted from 0; a page number is an integer, since the paging
-- component can hold -1 when there are no pages.
pub mod Buttons
mod ActiveButton
mod Tests
use sigopt_server.Base.{
  ℕ, zero, suc, ◌+◌, ◌*◌, Bool, true, false, not, ◌&&◌, ◌||◌, Option, none, some, List, [], ◌∷◌,
  ◌++◌, map, ℤ, pos, ◌+ℤ◌, ◌-ℤ◌, ltb, ltb_ℤ, eqb_ℤ, if◌then◌else◌,
}

-- The prop `increment`: 1 when pages load forwards, -1 when they load backwards.
pub data Increment : Type 0 where
  forward backward : Increment

abbrev pub is_forward : Increment → Bool
is_forward forward = true
is_forward backward = false

abbrev pub num_pages_each_side : ℕ
num_pages_each_side = 3

-- `showFirstEllipsis` and `showSecondEllipsis`.
unfoldable pub calculate_ellipsis_flags : ℕ → ℤ → Bool × Bool
calculate_ellipsis_flags num_pages current_page =
    let ellipsis_needed = ltb (2 * num_pages_each_side + 1) num_pages in
    (
      (if ellipsis_needed then ltb_ℤ (pos num_pages_each_side) (current_page -ℤ pos 0) else false),
      (if ellipsis_needed
          then ltb_ℤ (pos num_pages_each_side) (pos num_pages -ℤ pos 1 -ℤ current_page)
          else false),
    )

pub record BlockProps : Type 0 where
  pub has_next_page : Bool
  pub has_previous_page : Bool
  pub increment : Increment
  pub is_empty : Bool
  pub is_paging : Bool
  pub num_pages : ℕ
  pub page_number : ℤ

-- What `onClick` calls.
pub data Click : Type 0 where
  nothing : Click
  navigate_to_page : ℤ → Click
  reverse : Click

-- The items of the list, each with what a click on it does; of a page button also the number
-- that it stands for (its label is one more) and whether it is marked active.
pub data Item : Type 0 where
  spinner ellipsis : Item
  previous next : Click → Item
  page : ℤ → Bool → Click → Item

-- `_.range(start, start + count)`.
pub range : ℤ → ℕ → List ℤ
range start zero = []
range start (suc count) = start ∷ range (start +ℤ pos 1) count

pub previous_button : BlockProps → Item
previous_button p =
    if not (is_forward p.increment) && (not p.has_previous_page && p.is_paging)
    then spinner
    else previous
        (if p.has_previous_page then navigate_to_page (p.page_number -ℤ pos 1) else nothing)

pub next_button : BlockProps → Item
next_button p =
    if is_forward p.increment && (not p.has_next_page && p.is_paging)
    then spinner
    else next (if p.has_next_page then navigate_to_page (p.page_number +ℤ pos 1) else nothing)

pub first_button : BlockProps → Item
first_button p =
    page (pos 0) (eqb_ℤ p.page_number (pos 0))
      (if is_forward p.increment then navigate_to_page (pos 0) else reverse)

pub last_button : BlockProps → Item
last_button p =
    let last = pos p.num_pages -ℤ pos 1 in
    page last (eqb_ℤ p.page_number last)
      (if is_forward p.increment then reverse else navigate_to_page last)

-- `interiorPagesStartIndex` and `numInteriorButtons`, given the two ellipsis flags.
pub interior : Bool → Bool → BlockProps → ℤ × ℕ
interior true true p = (p.page_number -ℤ pos 1, 3)
interior true false p =
    (pos p.num_pages -ℤ pos 1 -ℤ pos num_pages_each_side -ℤ pos 1, num_pages_each_side + 1)
interior false true p = (pos 1, num_pages_each_side + 1)
interior false false p = (pos 0, p.num_pages)

pub interior_button : BlockProps → ℤ → Item
interior_button p num = page num (eqb_ℤ p.page_number num) (navigate_to_page num)

abbrev only_if : Bool → Item → List Item
only_if b item = if b then item ∷ [] else []

-- The items between the two arrows, given the two ellipsis flags.
pub numbered_items : Bool → Bool → BlockProps → List Item
numbered_items first_ellipsis second_ellipsis p =
    let show_first_last = first_ellipsis || second_ellipsis in
    let (start, count) = interior first_ellipsis second_ellipsis p in
    only_if show_first_last (first_button p)
    ++ (only_if first_ellipsis ellipsis
        ++ (map (interior_button p) (range start count)
            ++ (only_if second_ellipsis ellipsis ++ only_if show_first_last (last_button p))))

pub page_items : BlockProps → List Item
page_items p =
    let (first_ellipsis, second_ellipsis) = calculate_ellipsis_flags p.num_pages p.page_number in
    numbered_items first_ellipsis second_ellipsis p

-- `PagingBlock`; `none` is the `null` that renders nothing.
pub paging_block : BlockProps → Option (List Item)
unfolding previous_button next_button
paging_block p =
    if not p.is_empty && ltb 1 p.num_pages
    then some (previous_button p ∷ (page_items p ++ next_button p ∷ []))
    else none
