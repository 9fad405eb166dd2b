-- ===== src/Experiment/Bulk/Cut.antt =====
-- web/js/pages/experiment/core: loops that send a list piece by piece.
use sigopt_server.Base.{
  ℕ, zero, suc, ◌≤◌, ◌≡◌, refl, ap, ◌∙◌, Option, List, [], ◌∷◌, ◌++◌, map, length, take, drop,
  length-take, length-drop, take-append-drop, All, flatten, arith,
}
use sigopt_server.Experiment.Bulk.Calls.{sent, Run, answered, until_error}

-- A list cut into pieces of at most so many items, none of them empty.
abbrev pub IsCut : {A : Type 0} → ℕ → List A → List (List A) → Type 0
IsCut size xs pieces =
    (flatten pieces ≡ xs) × All (λ piece. (1 ≤ length piece) × (length piece ≤ size)) pieces

-- A loop `run fuel n mode xs`, which from the n-th answer on makes a call of a piece of the list, and
-- goes on with the rest if the call is accepted. Its mode tells what a call is made of.
module _ {A C D E : Type 0} (make : D → List A → C) (answers : ℕ → Option E) (size : ℕ)
    (run : ℕ → ℕ → D → List A → Run C E)
    (at_end : (fuel n : ℕ) (mode : D) → run fuel n mode [] ≡ ([], sent))
    (at_piece : (fuel n : ℕ) (mode : D) (x : A) (xs : List A)
      → run (suc fuel) n mode (x ∷ xs)
        ≡ answered
            (answers n)
            (make mode (take (suc size) (x ∷ xs)))
            (run fuel (suc n) mode (drop (suc size) (x ∷ xs)))) where
  -- With fuel for each item, the calls are those of one cut, in every mode, up to the first refused.
  pub run-IsCut :
      (fuel : ℕ) (xs : List A)
      → length xs ≤ fuel
      → (pieces : List (List A)) × IsCut (suc size) xs pieces
        × ((n : ℕ) (mode : D) → run fuel n mode xs ≡ until_error answers n (map (make mode) pieces))
  unfolding until_error
  run-IsCut fuel [] h = ([], (refl, tt), λ n mode. at_end fuel n mode)
  run-IsCut zero (x ∷ xs) h = absurd (omega arith)
  run-IsCut (suc fuel) (x ∷ xs) h =
      let (pieces, (whole, cut), same) =
        run-IsCut fuel (drop size xs) (omega (arith, length-drop size xs)) in
      (
        take (suc size) (x ∷ xs) ∷ pieces,
        (
          ap (λ ys. x ∷ ys) (ap (λ ys. take size xs ++ ys) whole ∙ take-append-drop size xs),
          ((omega arith, omega (arith, length-take size xs)), cut),
        ),
        λ n mode.
            at_piece fuel n mode x xs
            ∙ ap (answered (answers n) (make mode (take (suc size) (x ∷ xs)))) (same (suc n) mode),
      )
