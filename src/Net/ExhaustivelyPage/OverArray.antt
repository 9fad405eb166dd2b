-- ===== src/Net/ExhaustivelyPage/OverArray.antt =====
-- web/js/net/paging.js over web/js/net/list.js: paging exhaustively through an array.
use mathlib.Core.List.{reverse-append}
use Prim.Native.Nat.add
use native.Mathlib.Nat.{zero-add}
use sigopt_server.Base.{
  ℕ, zero, suc, ◌+◌, ◌-◌, ◌≤◌, ◌<◌, ◌≡◌, refl, sym, ap, ◌∙◌, inl, inr, Bool, true, false, Option,
  none, some, List, [], ◌∷◌, ◌++◌, reverse, length, length-drop, take, drop, take-append-drop,
  drop-drop, append_assoc, pos, ltb, leb, lt→ltb, ltb→lt, leb→le, get_or, if◌then◌else◌, arith,
  Bool-cases,
}
use sigopt_server.Net.ExhaustivelyPage.Rounds.{next_round, last_round}
use sigopt_server.Net.ArrayPager.{
  Arg, undefined, null, value, Paging, array_pager, page_of, page_before, page_after, Page,
}
use sigopt_server.Net.ArrayPager as ArrayPager
use sigopt_server.Net.ExhaustivelyPage.{
  Fetched, page, failure, success, fetch_next_page, exhaustively_page, unfinished,
}

abbrev marker_arg : Option ℕ → Arg
marker_arg none = null
marker_arg (some n) = value n

-- The `error()` of `arrayPager` carries nothing.
abbrev from_answer : {A : Type 0} → Bool → ArrayPager.Answer A → Fetched A ℕ (Unit {0})
from_answer ascending (ArrayPager.Answer.success p) =
    page p.rows (if ascending then p.after else p.before)
from_answer ascending ArrayPager.Answer.error = failure tt

-- The fetcher's call `fetcher({[direction]: marker, limit, ascending}, …)` on an array.
pub array_fetcher : {A : Type 0} → List A → ℕ → Bool → Option ℕ → Fetched A ℕ (Unit {0})
array_fetcher list limit ascending marker = from_answer ascending (
    array_pager list (
      if ascending
      then record { limit = some (pos limit); before = undefined; after = marker_arg marker }
      else record { limit = some (pos limit); before = marker_arg marker; after = undefined }))

abbrev pub never : ℕ → Bool
never n = false

module _ {A : Type 0} where
  take-all : (xs : List A) (n : ℕ) → length xs ≤ n → take n xs ≡ xs
  take-all [] zero h = refl
  take-all [] (suc n) h = refl
  take-all (x ∷ xs) zero h = absurd (omega arith)
  take-all (x ∷ xs) (suc n) h = ap (x ∷◌) (take-all xs n (omega arith))

  take-nil : (k : ℕ) → take k (let e : List A = [] in e) ≡ []
  take-nil zero = refl
  take-nil (suc k) = refl

  take-add : (m k : ℕ) (xs : List A) → take (m + k) xs ≡ take m xs ++ take k (drop m xs)
  take-add zero k xs = rw zero-add
  take-add (suc m) k [] = rw (add.suc m k) (sym (take-nil k))
  take-add (suc m) k (x ∷ xs) = rw (add.suc m k) (ap (x ∷◌) (take-add m k xs))

  take-drop-add :
      (limit b : ℕ) (xs : List A) → take limit (drop b xs) ++ drop (b + limit) xs ≡ drop b xs
  take-drop-add limit b xs = rw (← drop-drop limit b xs) (take-append-drop limit (drop b xs))

  reverse-take :
      (limit a : ℕ) (xs : List A)
      → limit ≤ a
      → reverse (take limit (drop (a - limit) xs)) ++ reverse (take (a - limit) xs)
        ≡ reverse (take a xs)
  reverse-take limit a xs h =
      let e : a ≡ a - limit + limit = omega arith in
      sym (reverse-append (take (a - limit) xs) (take limit (drop (a - limit) xs)))
      ∙ ap reverse (sym (take-add (a - limit) limit xs) ∙ ap (λ n. take n xs) (sym e))

  module _ (list : List A) (limit : ℕ) where
    abbrev fetched_before : ArrayPager.Page A → Fetched A ℕ (Unit {0})
    fetched_before p = page p.rows p.before

    abbrev fetched_after : ArrayPager.Page A → Fetched A ℕ (Unit {0})
    fetched_after p = page p.rows p.after

    -- What the array's fetcher answers.
    fetch_before :
        (marker : Option ℕ)
        → array_fetcher list limit false marker
          ≡ fetched_before (page_before list limit (get_or marker 0))
    unfolding array_fetcher array_pager page_of
    fetch_before none = refl
    fetch_before (some b) = refl

    fetch_after :
        (marker : Option ℕ)
        → array_fetcher list limit true marker
          ≡ fetched_after (page_after list limit (get_or marker (length list)))
    unfolding array_fetcher array_pager page_of
    fetch_after none = refl
    fetch_after (some b) = refl

    page_before_more :
        (b : ℕ)
        → ltb (b + limit) (length list) ≡ true
        → fetched_before (page_before list limit b)
          ≡ page (take limit (drop b list)) (some (b + limit))
    unfolding page_before
    page_before_more b h = let e : b + limit - b ≡ limit = omega arith in rw (h, e)

    page_before_last :
        (b : ℕ)
        → ltb (b + limit) (length list) ≡ false
        → fetched_before (page_before list limit b) ≡ page (drop b list) none
    unfolding page_before
    page_before_last b h =
        rw (h, take-all (drop b list) (length list - b) (omega (arith, length-drop b list)))

    page_after_more :
        (a : ℕ)
        → leb limit a ≡ true
        → fetched_after (page_after list limit a)
          ≡ page (reverse (take limit (drop (a - limit) list))) (some (a - limit))
    unfolding page_after
    page_after_more a h =
        let e : a - (a - limit) ≡ limit = omega (arith, leb→le limit a h) in rw (h, e)

    page_after_last :
        (a : ℕ)
        → leb limit a ≡ false
        → fetched_after (page_after list limit a) ≡ page (reverse (take a list)) none
    unfolding page_after
    page_after_last a h = rw h (ap (λ n. page (reverse (take n list)) none) (omega arith))

  module _ (list : List A) (limit : ℕ) (some_limit : 0 < limit) where
    descending_from :
        (fuel round : ℕ) (so_far : List A) (marker : Option ℕ)
        → length list - get_or marker 0 < fuel
        → fetch_next_page (array_fetcher list limit false) never fuel round so_far marker
          ≡ success (so_far ++ drop (get_or marker 0) list)
    descending_from zero round so_far marker h = absurd (omega arith)
    descending_from (suc fuel) round so_far marker h =
        let b = get_or marker 0 in
        elim (Bool-cases (ltb (b + limit) (length list))) [
          | inl more ↦
              let rows = take limit (drop b list) in
              next_round _ never fuel round so_far marker rows (b + limit)
                (fetch_before list limit marker ∙ page_before_more list limit b more) refl
              ∙ descending_from fuel (suc round) (so_far ++ rows) (some (b + limit))
                  (omega (arith, ltb→lt _ _ more))
              ∙ ap success
                  (append_assoc so_far rows _ ∙ ap (so_far ++◌) (take-drop-add limit b list))
          | inr done ↦
              last_round _ never fuel round so_far marker (drop b list)
                (fetch_before list limit marker ∙ page_before_last list limit b done) refl
        ]

    ascending_from :
        (fuel round : ℕ) (so_far : List A) (marker : Option ℕ)
        → get_or marker (length list) < fuel
        → fetch_next_page (array_fetcher list limit true) never fuel round so_far marker
          ≡ success (so_far ++ reverse (take (get_or marker (length list)) list))
    ascending_from zero round so_far marker h = absurd (omega arith)
    ascending_from (suc fuel) round so_far marker h =
        let a = get_or marker (length list) in
        elim (Bool-cases (leb limit a)) [
          | inl more ↦
              let rows = reverse (take limit (drop (a - limit) list)) in
              next_round _ never fuel round so_far marker rows (a - limit)
                (fetch_after list limit marker ∙ page_after_more list limit a more) refl
              ∙ ascending_from fuel (suc round) (so_far ++ rows) (some (a - limit))
                  (omega (arith, leb→le _ _ more))
              ∙ ap success (
                  append_assoc so_far rows _
                  ∙ ap (so_far ++◌) (reverse-take limit a list (leb→le _ _ more)))
          | inr done ↦
              last_round _ never fuel round so_far marker (reverse (take a list))
                (fetch_after list limit marker ∙ page_after_last list limit a done) refl
        ]

-- With a positive limit and no cancellation, paging through an array ends, within one round more
-- than it has items, and succeeds with the array, or with its reversal when paging is ascending.
pub exhaustively_page-array :
    {A : Type 0} (list : List A) (limit fuel : ℕ) (ascending : Bool)
    → 0 < limit
    → length list < fuel
    → exhaustively_page (array_fetcher list limit ascending) never fuel
      ≡ success (if ascending then reverse list else list)
unfolding exhaustively_page
exhaustively_page-array list limit fuel false h k =
    descending_from list limit h fuel 0 [] none (omega arith)
exhaustively_page-array list limit fuel true h k =
    ascending_from list limit h fuel 0 [] none k
    ∙ ap (λ xs. success (reverse xs)) (take-all list (length list) (omega arith))

unfinished_from :
    {A : Type 0} (list : List A) (fuel round : ℕ) (so_far : List A) (marker : Option ℕ)
    → get_or marker 0 < length list
    → fetch_next_page (array_fetcher list 0 false) never fuel round so_far marker ≡ unfinished
unfolding fetch_next_page
unfinished_from list zero round so_far marker h = refl
unfinished_from list (suc fuel) round so_far marker h =
    let b = get_or marker 0 in
    next_round _ never fuel round so_far marker [] (b + 0)
      (fetch_before list 0 marker ∙ page_before_more list 0 b (lt→ltb _ _ (omega arith))) refl
    ∙ unfinished_from list fuel (suc round) (so_far ++ []) (some (b + 0)) (omega arith)

-- With the limit 0, paging in descending order through an array that is not empty never ends unless
-- it is canceled: whatever the number of rounds, there is a next page.
pub exhaustively_page-limit_zero :
    {A : Type 0} (list : List A) (fuel : ℕ)
    → 0 < length list
    → exhaustively_page (array_fetcher list 0 false) never fuel ≡ unfinished
unfolding exhaustively_page
exhaustively_page-limit_zero list fuel h = unfinished_from list fuel 0 [] none h
