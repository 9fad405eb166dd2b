-- ===== src/Experiment/Bulk/Calls.antt =====
-- web/js/pages/experiment/core: sequences of calls to the API, each made when the one before has been
-- answered. The server is the sequence of its answers: none where it accepts, else the error.
use sigopt_server.Base.{
  ℕ, suc, ◌+◌, ◌≡◌, ◌⊎◌, refl, ap, sym, ◌∙◌, Option, none, some, List, [], ◌∷◌, ◌++◌, length, arith,
  Option-cases, inl, inr,
}

-- How a sequence of calls ends; `unfinished` if the fuel ran out.
pub data Ended (E : Type 0) : Type 0 where
  sent : Ended E
  failed : E → Ended E
  unfinished : Ended E

abbrev pub Run : Type 0 → Type 0 → Type 0
Run C E = List C × Ended E

module _ {C E : Type 0} where
  abbrev pub after_call : C → Run C E → Run C E
  after_call call (calls, ended) = (call ∷ calls, ended)

  -- What is called after the call, which the server has answered, is called only if it accepts.
  abbrev pub answered : Option E → C → Run C E → Run C E
  answered none call rest = after_call call rest
  answered (some e) call rest = (call ∷ [], failed e)

  abbrev pub go_on : List C → Run C E → Run C E
  go_on calls (more, ended) = (calls ++ more, ended)

  -- `.then`: what follows is done only if all was sent, from the next answer on.
  abbrev pub and_then : ℕ → Run C E → (ℕ → Run C E) → Run C E
  and_then n (calls, sent) next = go_on calls (next (n + length calls))
  and_then n (calls, failed e) next = (calls, failed e)
  and_then n (calls, unfinished) next = (calls, unfinished)

  and_then-after_call :
      (n : ℕ) (call : C) (run : Run C E) (next : ℕ → Run C E)
      → and_then n (after_call call run) next ≡ after_call call (and_then (suc n) run next)
  and_then-after_call n call (calls, sent) next =
      ap (λ m. go_on (call ∷ calls) (next m)) (omega arith)
  and_then-after_call n call (calls, failed e) next = refl
  and_then-after_call n call (calls, unfinished) next = refl

  module _ (answers : ℕ → Option E) where
    -- The calls up to the first that is refused.
    unfoldable pub until_error : ℕ → List C → Run C E
    until_error n [] = ([], sent)
    until_error n (call ∷ calls) = answered (answers n) call (until_error (suc n) calls)

    pub until_error-append :
        (n : ℕ) (xs ys : List C)
        → until_error n (xs ++ ys) ≡ and_then n (until_error n xs) (λ m. until_error m ys)
    unfolding until_error
    until_error-append n [] ys = ap (λ m. until_error m ys) (omega arith)
    until_error-append n (x ∷ xs) ys = elim (Option-cases (answers n)) [
      | inl accepted ↦ rw accepted (
          ap (after_call x) (until_error-append (suc n) xs ys)
          ∙ sym (and_then-after_call n x (until_error (suc n) xs) (λ m. until_error m ys)))
      | inr (e, refused) ↦ rw refused refl
    ]

    -- No fuel runs out.
    pub until_error-ends :
        (n : ℕ) (calls : List C)
        → ((until_error n calls).1 ≡ sent) ⊎ ((e : E) × ((until_error n calls).1 ≡ failed e))
    unfolding until_error
    until_error-ends n [] = inl refl
    until_error-ends n (call ∷ calls) = elim (Option-cases (answers n)) [
      | inl accepted ↦ rw accepted (until_error-ends (suc n) calls)
      | inr (e, refused) ↦ rw refused (inr (e, refl))
    ]
