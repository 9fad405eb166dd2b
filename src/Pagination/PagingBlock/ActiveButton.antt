-- ===== src/Pagination/PagingBlock/ActiveButton.antt =====
-- web/js/pagination/paging-block.js: the page button that is marked active.
use sigopt_server.Base.{
  ℕ, zero, suc, ◌+◌, ◌≡◌, refl, Bool, List, [], ◌∷◌, ◌++◌, map, ℤ, pos, ◌+ℤ◌, ◌-ℤ◌, ◌≤ℤ◌, ◌<ℤ◌,
  eqb_ℤ, if◌then◌else◌, arith, +ℤ_parts, int_laws, Bool-cases, ltb_ℤ, inl, inr,
}
use sigopt_server.Pagination.PagingBlock.{
  Item, ellipsis, page, BlockProps, range, first_button, last_button, interior, interior_button,
  numbered_items, page_items,
}
use sigopt_server.Pagination.PagingBlock.Buttons.{
  Layout, both, first, second, neither, flags-Layout,
}

-- How many of the items are page buttons that are marked active.
abbrev count_active : List Item → ℕ
count_active [] = 0
count_active (page n active c ∷ items) = (if active then 1 else 0) + count_active items
count_active (item ∷ items) = count_active items

count_active-append :
    (xs ys : List Item) → count_active (xs ++ ys) ≡ count_active xs + count_active ys
count_active-append [] ys = omega arith
count_active-append (page n active c ∷ xs) ys = omega (arith, count_active-append xs ys)
count_active-append (item ∷ xs) ys = count_active-append xs ys

count_active-range_outside :
    (p : BlockProps) (start : ℤ) (count : ℕ)
    → p.page_number <ℤ start
    → count_active (map (interior_button p) (range start count)) ≡ 0
unfolding interior_button range
count_active-range_outside p start zero h = refl
count_active-range_outside p start (suc count) h =
    let rest = count_active-range_outside p (start +ℤ pos 1) count (omega int_laws) in
    ground (arith, rest)

count_active-range :
    (p : BlockProps) (start : ℤ) (count : ℕ)
    → start ≤ℤ p.page_number
    → p.page_number <ℤ start +ℤ pos count
    → count_active (map (interior_button p) (range start count)) ≡ 1
unfolding interior_button range
count_active-range p start zero h k = absurd (omega int_laws)
count_active-range p start (suc count) h k = ground (
  arith,
  count_active-range p (start +ℤ pos 1) count,
  count_active-range_outside p (start +ℤ pos 1) count,
  +ℤ_parts start (pos 1),
  +ℤ_parts start (pos (suc count)),
  +ℤ_parts (start +ℤ pos 1) (pos count),
)

count_active-range_beyond :
    (p : BlockProps) (start : ℤ) (count : ℕ)
    → start +ℤ pos count ≤ℤ p.page_number
    → count_active (map (interior_button p) (range start count)) ≡ 0
unfolding interior_button range
count_active-range_beyond p start zero h = refl
count_active-range_beyond p start (suc count) h = ground (
  arith,
  count_active-range_beyond p (start +ℤ pos 1) count,
  +ℤ_parts start (pos 1),
  +ℤ_parts start (pos (suc count)),
  +ℤ_parts (start +ℤ pos 1) (pos count),
)

abbrev weight : BlockProps → ℤ → ℕ
weight p n = if eqb_ℤ p.page_number n then 1 else 0

weight_lt : (p : BlockProps) (n : ℤ) → p.page_number <ℤ n → weight p n ≡ 0
weight_lt p n h = ground arith

weight_gt : (p : BlockProps) (n : ℤ) → n <ℤ p.page_number → weight p n ≡ 0
weight_gt p n h = ground arith

weight_eq : (p : BlockProps) (n : ℤ) → p.page_number ≤ℤ n → n ≤ℤ p.page_number → weight p n ≡ 1
weight_eq p n h k = ground arith

-- The interior buttons followed by items `rest`.
interior_then :
    (p : BlockProps) (start : ℤ) (count : ℕ) (rest : List Item)
    → count_active (map (interior_button p) (range start count) ++ rest)
      ≡ count_active (map (interior_button p) (range start count)) + count_active rest
interior_then p start count rest =
    count_active-append (map (interior_button p) (range start count)) rest

module _ (p : BlockProps) where
  last : ℤ
  last = pos p.num_pages -ℤ pos 1

  numbered_items-one_active :
      {f s : Bool}
      → Layout p.num_pages p.page_number f s
      → pos 0 ≤ℤ p.page_number
      → p.page_number <ℤ pos p.num_pages
      → count_active (numbered_items f s p) ≡ 1
  unfolding numbered_items interior first_button last_button last
  numbered_items-one_active (both a b) h k = omega (
    int_laws,
    weight_gt p (pos 0),
    weight_lt p last,
    interior_then p (p.page_number -ℤ pos 1) 3 (ellipsis ∷ last_button p ∷ []),
    count_active-range p (p.page_number -ℤ pos 1) 3,
  )
  numbered_items-one_active (first a b) h k =
      let start = last -ℤ pos 3 -ℤ pos 1 in
      elim (Bool-cases (ltb_ℤ p.page_number last)) [
        | inl before ↦ omega (
          int_laws,
          weight_gt p (pos 0),
          weight_lt p last,
          interior_then p start 4 (last_button p ∷ []),
          count_active-range p start 4,
        )
        | inr at_last ↦ omega (
          int_laws,
          weight_gt p (pos 0),
          weight_eq p last,
          interior_then p start 4 (last_button p ∷ []),
          count_active-range_beyond p start 4,
        )
      ]
  numbered_items-one_active (second a b) h k = elim (Bool-cases (ltb_ℤ (pos 0) p.page_number)) [
    | inl after ↦ omega (
      int_laws,
      weight_gt p (pos 0),
      weight_lt p last,
      interior_then p (pos 1) 4 (ellipsis ∷ last_button p ∷ []),
      count_active-range p (pos 1) 4,
    )
    | inr at_first ↦ omega (
      int_laws,
      weight_eq p (pos 0),
      weight_lt p last,
      interior_then p (pos 1) 4 (ellipsis ∷ last_button p ∷ []),
      count_active-range_outside p (pos 1) 4,
    )
  ]
  numbered_items-one_active (neither a) h k =
      omega
        (int_laws, interior_then p (pos 0) p.num_pages [], count_active-range p (pos 0) p.num_pages)

-- When the current page is one of the pages, exactly one page button is marked active.
page_items-one_active :
    (p : BlockProps)
    → pos 0 ≤ℤ p.page_number
    → p.page_number <ℤ pos p.num_pages
    → count_active (page_items p) ≡ 1
unfolding page_items
page_items-one_active p h k =
    numbered_items-one_active p (flags-Layout p.num_pages p.page_number) h k
