-- ===== src/Pagination/Pageable/Slots.antt =====
-- web/js/pagination/make-pageable.js: the order in which the pages are loaded.
use sigopt_server.Base.{
  ℕ, ◌≤◌, ◌<◌, ◌≡◌, refl, sym, ◌∙◌, subst, ltb, ltb→lt, ltb→le, inl, inr, true, false, List, [],
  ◌∷◌, ℤ, pos, ◌-ℤ◌, eqb_ℤ_iff, length, is_some, arith, Bool-cases, ==_iff, ◌==◌,
}
use mathlib.Core.Bool
use sigopt_server.Pagination.PagingBlock.{Increment, forward, backward}
use sigopt_server.Pagination.Pageable.{lookup_page}

-- The page that is loaded as number `j`, counted from the end where the loading starts.
abbrev pub slot : Increment → ℕ → ℕ → ℤ
slot forward n j = pos j
slot backward n j = pos n -ℤ pos 1 -ℤ pos j

-- The pages, newest first, are those that the loading order names.
abbrev pub Filled : {A : Type 0} → Increment → ℕ → List (ℤ × List A) → Type 0
Filled i n [] = Unit
Filled i n ((index, rows) ∷ pages) = (index ≡ slot i n (length pages)) × Filled i n pages

pub slot_same :
    (i : Increment) (m n : ℕ) → (i ≡ backward → m ≡ n) → (j : ℕ) → slot i m j ≡ slot i n j
slot_same forward m n h j = refl
slot_same backward m n h j = rw (h refl)

pub Filled_same :
    {A : Type 0} (i i' : Increment) (n n' : ℕ) (pages : List (ℤ × List A))
    → ((j : ℕ) → slot i' n' j ≡ slot i n j)
    → Filled i n pages
    → Filled i' n' pages
Filled_same i i' n n' [] same f = tt
Filled_same i i' n n' ((index, rows) ∷ pages) same (e, f) =
    (e ∙ sym (same (length pages)), Filled_same i i' n n' pages same f)

pub lookup_page-slot :
    {A : Type 0} (i : Increment) (n j : ℕ) (pages : List (ℤ × List A))
    → Filled i n pages
    → j < length pages
    → is_some (lookup_page (slot i n j) pages) ≡ true
unfolding lookup_page
lookup_page-slot i n j [] f h = absurd (omega arith)
lookup_page-slot i n j ((index, rows) ∷ pages) (e, f) h = ground (
  arith,
  eqb_ℤ_iff index (slot i n j),
  lookup_page-slot i n j pages f,
  ==_iff j (length pages),
  Bool-cases (j == length pages),
)

-- A page that is not loaded, and no later than the next one, is the next one.
pub next_of_absent :
    {A : Type 0} (i : Increment) (n j : ℕ) (pages : List (ℤ × List A)) (index : ℤ)
    → Filled i n pages
    → is_some (lookup_page index pages) ≡ false
    → j ≤ length pages
    → index ≡ slot i n j
    → index ≡ slot i n (length pages)
next_of_absent i n j pages index f absent le e = elim (Bool-cases (ltb j (length pages))) [
  | inl lt ↦
      let found = lookup_page-slot i n j pages f (ltb→lt j (length pages) lt) in
      let found' = subst (λ k. is_some (lookup_page k pages) ≡ true) (sym e) found in
      absurd (Bool.false≢true (sym absent ∙ found'))
  | inr ge ↦
      let same : j ≡ length pages = omega (arith, ltb→le j (length pages) ge) in
      subst (λ k. index ≡ slot i n k) same e
]
