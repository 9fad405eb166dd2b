-- ===== src/Experiment/Ui/Thresholds.antt =====
-- web/js/experiment/ui.js: which observations satisfy the thresholds.
use text.Mathlib.Text.{◌==◌ as str_eq}
use sigopt_server.Base.{
  ◌≡◌, refl, Bool, true, false, not, ◌&&◌, ◌||◌, Option, none, some, List, [], ◌∷◌, map, length,
  All, arith, Bool-cases, inl, inr, if◌then◌else◌,
}
use sigopt_server.Utils.Json.{Json, is_undefined_or_null}
use sigopt_server.Experiment.Model.{Metric}
use sigopt_server.Experiment.Ui.{Experiment}
use sigopt_server.Experiment.Ui.Metrics.{
  get_thresholds, value_satisfies_threshold, threshold_pairs, every_satisfies,
  observation_satisfies_thresholds,
}

abbrev pub has_objective : Metric → Bool
has_objective m = str_eq m.objective "minimize" || str_eq m.objective "maximize"

module _ (at_most : Json → Json → Bool) where
  -- A metric to minimize is at most its threshold, and one to maximize at least.
  abbrev pub is_good : Metric → Json → Bool
  is_good m v =
      is_undefined_or_null m.threshold
      || (if str_eq m.objective "minimize" then at_most v m.threshold else at_most m.threshold v)

  abbrev pub all_good : List Metric → List Json → Bool
  all_good [] values = true
  all_good (m ∷ metrics) [] = false
  all_good (m ∷ metrics) (v ∷ values) = is_good m v && all_good metrics values

  step-all_good :
      (m : Metric) (v : Json) (o : Option (List (Metric × (Json × Option Json)))) (rest : Bool)
      → has_objective m ≡ true
      → elim o [ none ↦ none | some pairs ↦ every_satisfies at_most pairs ] ≡ some rest
      → elim (if is_undefined_or_null m.threshold
          then o
          else elim o [ none ↦ none | some pairs ↦ some ((m, (m.threshold, some v)) ∷ pairs) ]) [
            | none ↦ none
            | some pairs ↦ every_satisfies at_most pairs
          ]
        ≡ some (is_good m v && rest)
  unfolding every_satisfies value_satisfies_threshold
  step-all_good m v none rest known h = ground arith
  step-all_good m v (some pairs) rest known h =
      elim (Bool-cases (is_undefined_or_null m.threshold)) [
        | inl free ↦ rw free h
        | inr bound ↦ rw bound (ground (arith, h, known))
      ]

  pairs-all_good :
      (metrics : List Metric) (values : List Json)
      → length values ≡ length metrics
      → All (λ m. has_objective m ≡ true) metrics
      → elim (threshold_pairs (map (λ (m : Metric). (m, m.threshold)) metrics) values) [
        | none ↦ none
        | some pairs ↦ every_satisfies at_most pairs
      ]
        ≡ some (all_good metrics values)
  unfolding threshold_pairs every_satisfies value_satisfies_threshold
  pairs-all_good [] [] h known = refl
  pairs-all_good [] (v ∷ values) h known = ground arith
  pairs-all_good (m ∷ metrics) [] h known = ground arith
  pairs-all_good (m ∷ metrics) (v ∷ values) h known =
      step-all_good m v (threshold_pairs (map (λ (n : Metric). (n, n.threshold)) metrics) values)
        (all_good metrics values) known.0
        (pairs-all_good metrics values (ground (arith, h)) known.1)

  -- With a value for each metric, and objectives that are known, an observation satisfies the
  -- thresholds exactly if it has not failed and each metric that has a threshold is at most it when
  -- minimized and at least it when maximized; no case throws.
  pub observation_satisfies_thresholds-all_good :
      (experiment : Experiment) (failed : Bool) (values : List Json)
      → length values ≡ length experiment.metrics
      → All (λ m. has_objective m ≡ true) experiment.metrics
      → observation_satisfies_thresholds at_most experiment failed values
        ≡ some (not failed && all_good experiment.metrics values)
  unfolding observation_satisfies_thresholds get_thresholds
  observation_satisfies_thresholds-all_good experiment true values h known = refl
  observation_satisfies_thresholds-all_good experiment false values h known =
      pairs-all_good experiment.metrics values h known
