-- ===== src/Pagination/PagingBlock/Buttons.antt =====
-- web/js/pagination/paging-block.js: which page buttons are shown, and where they lead.
use sigopt_server.Base.{
  ℕ, zero, suc, ◌≤◌, ◌<◌, ◌≡◌, ◌≢◌, ◌↔◌, ◌∙◌, sym, ap, refl, ◌⊎◌, Bool, true, false, ◌&&◌, map, ℤ,
  pos, ◌+ℤ◌, ◌-ℤ◌, ◌≤ℤ◌, ◌<ℤ◌, eqb_ℤ, eqb_ℤ_iff, pos_part, neg_part, if◌then◌else◌, All, All-append,
  arith, int_laws, Bool-cases, ltb, ltb_ℤ, inl, inr,
}
use sigopt_server.Pagination.PagingBlock.{
  Increment, forward, backward, is_forward, Click, navigate_to_page, Item, page, BlockProps, range,
  first_button, last_button, interior, interior_button, numbered_items, page_items,
  calculate_ellipsis_flags,
}

-- The four layouts of the control.
pub data Layout (n : ℕ) (page : ℤ) : Bool → Bool → Type 0 where
  both : pos 4 ≤ℤ page → page +ℤ pos 4 <ℤ pos n → Layout n page true true
  first : 7 < n → pos n ≤ℤ page +ℤ pos 4 → Layout n page true false
  second : 7 < n → page ≤ℤ pos 3 → Layout n page false true
  neither : n ≤ 7 → Layout n page false false

pub flags-Layout :
    (n : ℕ) (at : ℤ)
    → Layout n at (calculate_ellipsis_flags n at).0 (calculate_ellipsis_flags n at).1
unfolding calculate_ellipsis_flags
flags-Layout n at = elim (Bool-cases (ltb 7 n)) [
  | inl many ↦ rw many (elim (Bool-cases (ltb_ℤ (pos 3) (at -ℤ pos 0))) [
    | inl f ↦ rw f (elim (Bool-cases (ltb_ℤ (pos 3) (pos n -ℤ pos 1 -ℤ at))) [
      | inl s ↦ rw s (both (omega int_laws) (omega int_laws))
      | inr s ↦ rw s (first (omega int_laws) (omega int_laws))
    ])
    | inr f ↦ rw f (elim (Bool-cases (ltb_ℤ (pos 3) (pos n -ℤ pos 1 -ℤ at))) [
      | inl s ↦ rw s (second (omega int_laws) (omega int_laws))
      | inr s ↦ absurd (omega int_laws)
    ])
  ])
  | inr few ↦ rw few (neither (ground arith))
]

-- The page at the far end of the direction in which pages load.
abbrev pub far_end : BlockProps → ℤ
far_end p = if is_forward p.increment then pos p.num_pages -ℤ pos 1 else pos 0

-- What the button of a page calls: the one of the far end, when there are more than 7 pages, turns
-- the paging round, and each other one navigates to its page.
abbrev pub click_of : BlockProps → ℤ → Click
click_of p num =
    if eqb_ℤ num (far_end p) && ltb 7 p.num_pages then Click.reverse else navigate_to_page num

-- A page button stands for an existing page, is marked if it is the current one, and its click is
-- the one of this page.
abbrev pub Leads : BlockProps → Item → Type 0
Leads p (page num active click) =
    (pos 0 ≤ℤ num)
    × (num <ℤ pos p.num_pages)
    × ((active ≡ true) ↔ (p.page_number ≡ num))
    × (click ≡ click_of p num)
Leads p item = Unit

-- Numbers of interior buttons: all of at most 7 pages, or without both ends.
abbrev Within : BlockProps → ℤ → ℕ → Type 0
Within p start count =
    (pos 0 ≤ℤ start)
    × (start +ℤ pos count ≤ℤ pos p.num_pages)
    × ((p.num_pages ≤ 7) ⊎ ((pos 1 ≤ℤ start) × (start +ℤ pos count ≤ℤ pos p.num_pages -ℤ pos 1)))

click_of-far_end : (p : BlockProps) → 7 < p.num_pages → click_of p (far_end p) ≡ Click.reverse
click_of-far_end p many = rw ((eqb_ℤ_iff (far_end p) (far_end p)).1 refl) (ground arith)

click_of-few : (p : BlockProps) (num : ℤ) → p.num_pages ≤ 7 → click_of p num ≡ navigate_to_page num
click_of-few p num few = ground arith

click_of-near : (p : BlockProps) (num : ℤ) → num ≢ far_end p → click_of p num ≡ navigate_to_page num
click_of-near p num near = elim (Bool-cases (eqb_ℤ num (far_end p))) [
  | inl same ↦ absurd (near ((eqb_ℤ_iff num (far_end p)).0 same))
  | inr other ↦ rw other refl
]

far_end-cases :
    (p : BlockProps)
    → ((p.increment ≡ forward) × (far_end p ≡ pos p.num_pages -ℤ pos 1))
      ⊎ ((p.increment ≡ backward) × (far_end p ≡ pos 0))
far_end-cases p = far p.increment p refl
  where
    far :
        (i : Increment) (q : BlockProps)
        → q.increment ≡ i
        → ((q.increment ≡ forward) × (far_end q ≡ pos q.num_pages -ℤ pos 1))
          ⊎ ((q.increment ≡ backward) × (far_end q ≡ pos 0))
    far forward q e = inl (e, rw e refl)
    far backward q e = inr (e, rw e refl)

click_of-Within :
    (p : BlockProps) (start : ℤ) (count : ℕ)
    → Within p start (suc count)
    → click_of p start ≡ navigate_to_page start
click_of-Within p start count (low, high, inl few) = click_of-few p start few
click_of-Within p start count (low, high, inr (above, below)) = click_of-near p start (λ same.
    elim (far_end-cases p) [
      | inl (i, e) ↦ apart_last (same ∙ e)
      | inr (i, e) ↦ apart_first (same ∙ e)
    ])
  where
    apart_last : start ≢ pos p.num_pages -ℤ pos 1
    apart_last e = omega (int_laws, ap pos_part e, ap neg_part e)

    apart_first : start ≢ pos 0
    apart_first e = omega (int_laws, ap pos_part e, ap neg_part e)

interior_button-Leads :
    (p : BlockProps) (start : ℤ) (count : ℕ)
    → Within p start (suc count)
    → Leads p (interior_button p start)
unfolding interior_button
interior_button-Leads p start count h = (
  h.0,
  omega (int_laws, h.1),
  eqb_ℤ_iff p.page_number start,
  sym (click_of-Within p start count h),
)

range-Leads :
    (p : BlockProps) (start : ℤ) (count : ℕ)
    → Within p start count
    → All (Leads p) (map (interior_button p) (range start count))
unfolding range
range-Leads p start zero h = tt
range-Leads p start (suc count) (low, high, ends) = (
  interior_button-Leads p start count (low, high, ends),
  range-Leads p (start +ℤ pos 1) count (omega int_laws, omega int_laws, further ends),
)
  where
    further :
        (p.num_pages ≤ 7)
          ⊎ ((pos 1 ≤ℤ start) × (start +ℤ pos (suc count) ≤ℤ pos p.num_pages -ℤ pos 1))
        → (p.num_pages ≤ 7)
          ⊎ ((pos 1 ≤ℤ start +ℤ pos 1) × (start +ℤ pos 1 +ℤ pos count ≤ℤ pos p.num_pages -ℤ pos 1))
    further (inl few) = inl few
    further (inr (above, below)) = inr (omega int_laws, omega int_laws)

module _ (p : BlockProps) (many : 7 < p.num_pages) where
  last_page : ℤ
  last_page = pos p.num_pages -ℤ pos 1

  apart : pos 0 ≢ pos p.num_pages -ℤ pos 1
  apart e = omega (int_laws, many, ap pos_part e, ap neg_part e)

  first_button-Leads : Leads p (first_button p)
  unfolding first_button
  first_button-Leads = (
    omega int_laws,
    omega int_laws,
    eqb_ℤ_iff p.page_number (pos 0),
    elim (far_end-cases p) [
      | inl (i, e) ↦
          ap (λ k. if is_forward k then navigate_to_page (pos 0) else Click.reverse) i
          ∙ sym (click_of-near p (pos 0) (λ same. apart (same ∙ e)))
      | inr (i, e) ↦
          ap (λ k. if is_forward k then navigate_to_page (pos 0) else Click.reverse) i
          ∙ sym (ap (click_of p) (sym e) ∙ click_of-far_end p many)
    ],
  )

  last_button-Leads : Leads p (last_button p)
  unfolding last_button last_page
  last_button-Leads = (
    omega int_laws,
    omega int_laws,
    eqb_ℤ_iff p.page_number _,
    elim (far_end-cases p) [
      | inl (i, e) ↦
          ap (λ k. if is_forward k then Click.reverse else navigate_to_page last_page) i
          ∙ sym (ap (click_of p) (sym e) ∙ click_of-far_end p many)
      | inr (i, e) ↦
          ap (λ k. if is_forward k then Click.reverse else navigate_to_page last_page) i
          ∙ sym (click_of-near p _ (λ same. apart (sym e ∙ sym same)))
    ],
  )

numbered_items-Leads :
    (p : BlockProps) {f s : Bool}
    → Layout p.num_pages p.page_number f s
    → All (Leads p) (numbered_items f s p)
unfolding numbered_items interior
numbered_items-Leads p (both a b) = (
  first_button-Leads p (omega int_laws),
  (
    tt,
    All-append _ (map (interior_button p) (range (p.page_number -ℤ pos 1) 3)) _
        (range-Leads p (p.page_number -ℤ pos 1) 3
          (omega int_laws, omega int_laws, inr (omega int_laws, omega int_laws)))
        (tt, (last_button-Leads p (omega int_laws), tt)),
  ),
)
numbered_items-Leads p (first a b) = (
  first_button-Leads p a,
  (
    tt,
    All-append _ (map (interior_button p) (range (pos p.num_pages -ℤ pos 1 -ℤ pos 3 -ℤ pos 1) 4)) _
        (range-Leads p _ 4 (omega int_laws, omega int_laws, inr (omega int_laws, omega int_laws)))
        (last_button-Leads p a, tt),
  ),
)
numbered_items-Leads p (second a b) = (
  first_button-Leads p a,
  All-append _ (map (interior_button p) (range (pos 1) 4)) _
      (range-Leads p _ 4 (omega int_laws, omega int_laws, inr (omega int_laws, omega int_laws)))
      (tt, (last_button-Leads p a, tt)),
)
numbered_items-Leads p (neither a) =
    All-append _ (map (interior_button p) (range (pos 0) p.num_pages)) _
      (range-Leads p _ p.num_pages (omega int_laws, omega int_laws, inl a)) tt

-- Whatever the current page, each page button of the control stands for a page from 0 to the last
-- one and is marked active exactly if this is the current page. A click on it navigates to that
-- page, except that of more than 7 pages the last one, when pages load forwards, and the first one,
-- when they load backwards, turn the direction of paging round.
pub page_items-Leads : (p : BlockProps) → All (Leads p) (page_items p)
unfolding page_items
page_items-Leads p = numbered_items-Leads p (flags-Layout p.num_pages p.page_number)
