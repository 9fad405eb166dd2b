-- ===== src/Chart/Sides.antt =====
-- web/js/chart/thresholds.js: the two sides of the threshold on an axis, and
-- which of them a number that the axis shows is on.
use text.Mathlib.Text.{◌==◌ as str_eq}
use sigopt_server.Base.{
  ltb→lt, ◌≡◌, refl, sym, ap, ◌∙◌, Bool, true, false, not, ◌&&◌, ◌||◌, Option, none, some, List, [],
  ◌∷◌, map, ◌+ℤ◌, ℤ, pos, negsuc, ltb_ℤ, leb_ℤ, ◌≤ℤ◌, ◌<ℤ◌, ◌-ℤ◌, +ℤ_parts, -ℤ_parts, arith,
  Bool-cases, ◌⊎◌, inl, inr,
}
use sigopt_server.Chart.Range.{compute_range, get_chart_range, get_chart_range-Covers, times}
use sigopt_server.Chart.Values.{Axis, Observed, metric_value}
use sigopt_server.Chart.Thresholds.{
  ThresholdOptions, make_options, least, greatest, defined_values, objective_option,
  metric_objective_option, orient_threshold, Scale, data_axis, paper,
}
use sigopt_server.Experiment.Model.{Metric}
use sigopt_server.Experiment.Ui.{Experiment}
use sigopt_server.Experiment.Ui.Metrics.{find_metric}

abbrev pub within : Scale → ℤ → ℤ → ℤ → Bool
within paper a b p = true
within data_axis a b p = (leb_ℤ a p && leb_ℤ p b) || (leb_ℤ b p && leb_ℤ p a)

within-worse :
    (t l r p : ℤ)
    → l ≤ℤ t
    → t ≤ℤ r
    → l ≤ℤ p
    → p ≤ℤ r
    → (p <ℤ t) ⊎ (t <ℤ p)
    → (within data_axis t r p ≡ ltb_ℤ t p) × (within data_axis t l p ≡ ltb_ℤ p t)
within-worse t l r p a b c d (inl off) = (ground arith, ground arith)
within-worse t l r p a b c d (inr off) = (ground arith, ground arith)

within-opposite :
    (t l r p : ℤ)
    → l ≤ℤ t
    → t ≤ℤ r
    → l ≤ℤ p
    → p ≤ℤ r
    → (p <ℤ t) ⊎ (t <ℤ p)
    → (within data_axis t l p ≡ not (within data_axis t r p))
      × (within data_axis t r p ≡ not (within data_axis t l p))
within-opposite t l r p a b c d (inl off) = (ground arith, ground arith)
within-opposite t l r p a b c d (inr off) = (ground arith, ground arith)

times-wider : (a : ℤ) → pos 0 ≤ℤ a → times 5 a ≤ℤ times 200 a
times-wider (pos n) h = ground arith
times-wider (negsuc n) h = ground arith

compute_range-wider :
    (l r p : ℤ)
    → l ≤ℤ r
    → (compute_range 5 l r).0 ≤ℤ p
    → p ≤ℤ (compute_range 5 l r).1
    → ((compute_range 200 l r).0 ≤ℤ p) × (p ≤ℤ (compute_range 200 l r).1)
unfolding compute_range
compute_range-wider l r p h low high =
    let width = r -ℤ l in
    let wider = times-wider width (omega (arith, h, -ℤ_parts r l)) in
    (
      omega (
        arith,
        low,
        wider,
        -ℤ_parts (times 100 l) (times 5 width),
        -ℤ_parts (times 100 l) (times 200 width),
      ),
      omega (
        arith,
        high,
        wider,
        +ℤ_parts (times 100 r) (times 5 width),
        +ℤ_parts (times 100 r) (times 200 width),
      ),
    )

get_chart_range-wider :
    (l r p : ℤ)
    → (get_chart_range 5 1 (some l) (some r)).0 ≤ℤ p
    → p ≤ℤ (get_chart_range 5 1 (some l) (some r)).1
    → ((get_chart_range 200 1 (some l) (some r)).0 ≤ℤ p)
      × (p ≤ℤ (get_chart_range 200 1 (some l) (some r)).1)
unfolding get_chart_range
get_chart_range-wider l r p = elim (Bool-cases (ltb_ℤ l r)) [
  | inl ordered ↦ rw ordered (compute_range-wider l r p (omega (arith, ltb→lt _ _ ordered)))
  | inr equal ↦ rw equal (
      compute_range-wider (l -ℤ pos 1) (l +ℤ pos 1) p
        (omega (arith, -ℤ_parts l (pos 1), +ℤ_parts l (pos 1))))
]

least-le : (bs : List ℤ) (a : ℤ) → least bs a ≤ℤ a
least-le [] a = omega arith
least-le (b ∷ bs) a =
    let below = least-le bs a in
    elim (Bool-cases (ltb_ℤ b (least bs a))) [
      | inl less ↦ rw less (omega (arith, below, ltb→lt _ _ less))
      | inr kept ↦ rw kept below
    ]

greatest-ge : (bs : List ℤ) (a : ℤ) → a ≤ℤ greatest bs a
greatest-ge [] a = omega arith
greatest-ge (b ∷ bs) a =
    let above = greatest-ge bs a in
    elim (Bool-cases (ltb_ℤ (greatest bs a) b)) [
      | inl more ↦ rw more (omega (arith, above, ltb→lt _ _ more))
      | inr kept ↦ rw kept above
    ]

-- The number on an axis is worse than the threshold there; none if the objective is unknown.
unfoldable pub is_worse : Experiment → Option ThresholdOptions → ℤ → Option Bool
unfolding objective_option
is_worse experiment none p = some false
is_worse experiment (some o) p =
    objective_option experiment o.axis.key (ltb_ℤ (times 100 o.threshold) p)
      (ltb_ℤ p (times 100 o.threshold))

-- The number is in the range that the axis shows, and is not the threshold.
abbrev pub IsOff : ℤ → ThresholdOptions → Type 0
IsOff p o =
    (o.range.0 ≤ℤ p)
    × ((p ≤ℤ o.range.1) × ((p <ℤ times 100 o.threshold) ⊎ (times 100 o.threshold <ℤ p)))

abbrev pub Sides : Experiment → ThresholdOptions → ℤ → Type 0
Sides experiment o p =
    let beyond = within data_axis (times 100 o.threshold) in
    ((orient_threshold experiment o ≡ none) × (is_worse experiment (some o) p ≡ none))
    ⊎ ((sides : ℤ × ℤ) × ((orient_threshold experiment o ≡ some sides)
          × ((is_worse experiment (some o) p ≡ some (beyond sides.1 p))
              × (beyond sides.0 p ≡ not (beyond sides.1 p)))))

abbrev Chosen : {A : Type 0} {B : Type 0} → Option A → A → A → Option B → B → B → Type 0
Chosen o a a' q b b' =
    ((o ≡ none) × (q ≡ none)) ⊎ (((o ≡ some a) × (q ≡ some b)) ⊎ ((o ≡ some a') × (q ≡ some b')))

metric_objective_option-Chosen :
    {A : Type 0} {B : Type 0} (m : Option Metric) (a a' : A) (b b' : B)
    → Chosen (metric_objective_option m a a') a a' (metric_objective_option m b b') b b'
metric_objective_option-Chosen none a a' b b' = inl (refl, refl)
metric_objective_option-Chosen (some m) a a' b b' =
    elim (Bool-cases (str_eq m.objective "minimize")) [
      | inl small ↦ rw small (inr (inl (refl, refl)))
      | inr other ↦ elim (Bool-cases (str_eq m.objective "maximize")) [
        | inl large ↦ rw (other, large) (inr (inr (refl, refl)))
        | inr unknown ↦ rw (other, unknown) (inl (refl, refl))
      ]
    ]

pub make_options-Sides :
    (experiment : Experiment) (observations : List Observed) (axis : Axis) (t p : ℤ)
    → IsOff p (make_options observations axis t)
    → Sides experiment (make_options observations axis t) p
unfolding make_options orient_threshold is_worse objective_option
make_options-Sides experiment observations axis t p (low, (high, off)) =
    let values = defined_values (map (metric_value axis.key) observations) in
    let l = least values t in
    let r = greatest values t in
    let range = get_chart_range 200 1 (some l) (some r) in
    let inside = get_chart_range-wider l r p low high in
    let covers =
      get_chart_range-Covers 200 1 (some l) (some r) t (omega arith)
        (least-le values t, greatest-ge values t) in
    let sides =
      within-worse (times 100 t) range.0 range.1 p covers.0.0 covers.0.1 inside.0 inside.1 off in
    let opposite =
      within-opposite (times 100 t) range.0 range.1 p covers.0.0 covers.0.1 inside.0 inside.1 off in
    elim (metric_objective_option-Chosen (find_metric experiment.metrics axis.key) range
      (range.1, range.0) (ltb_ℤ (times 100 t) p) (ltb_ℤ p (times 100 t))) [
        | inl unknown ↦ inl unknown
        | inr (inl (a, b)) ↦ inr (range, (a, (b ∙ ap some (sym sides.0), opposite.0)))
        | inr (inr (a, b)) ↦ inr ((range.1, range.0), (a, (b ∙ ap some (sym sides.1), opposite.1)))
      ]
