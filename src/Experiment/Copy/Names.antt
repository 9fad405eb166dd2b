-- ===== src/Experiment/Copy/Names.antt =====
-- web/js/pages/experiment/core/copy/endpoint.js: the name of a copy.
use Prim.Native.String.{String}
use sigopt_server.Base.{ℕ, zero, suc, ◌+◌, ◌≤◌, ◌≡◌, refl, ltb, ltb→le, arith, Bool-cases, inl, inr}
use sigopt_server.Experiment.Bulk.Columns.{prefixed}
use sigopt_server.Experiment.Copy.{count_chars, substring, copied_name}

count_chars-prefixed : (a b : String) → count_chars (prefixed a b) ≡ count_chars a + count_chars b
unfolding count_chars prefixed
count_chars-prefixed String.[] b = omega arith
count_chars-prefixed (String.◌∷◌ c a) b = omega (arith, count_chars-prefixed a b)

count_chars-substring : (n : ℕ) (s : String) → count_chars (substring n s) ≤ n
unfolding count_chars substring
count_chars-substring zero s = omega arith
count_chars-substring (suc n) String.[] = omega arith
count_chars-substring (suc n) (String.◌∷◌ c s) = omega (arith, count_chars-substring n s)

suffixes : (count_chars "... Copy" ≡ 8) × (count_chars " Copy" ≡ 5)
unfolding count_chars
suffixes = (refl, refl)

-- Whatever the name of the experiment, the name of the copy has at most 50 characters.
pub copied_name-le : (name : String) → count_chars (copied_name name) ≤ 50
unfolding copied_name
copied_name-le name = elim (Bool-cases (ltb 45 (count_chars name))) [
  | inl long ↦
      rw (long, count_chars-prefixed (substring 42 name) "... Copy", suffixes.0)
        (omega (arith, count_chars-substring 42 name))
  | inr short ↦
      rw (short, count_chars-prefixed name " Copy", suffixes.1)
        (omega (arith, ltb→le 45 (count_chars name) short))
]
