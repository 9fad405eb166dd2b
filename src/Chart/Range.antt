-- ===== src/Chart/Range.antt =====
-- web/js/chart/range.js: the range that an axis shows. Numbers are integers, and the padding counts
-- hundredths of the width; the bounds of the result are in hundredths too. A missing bound is none.
use sigopt_server.Base.{
  ℕ, ◌+◌, ◌<◌, ltb→lt, ltb→le, ◌*◌, ◌≡◌, Option, none, some, ℤ, pos, negsuc, pos_part, neg_part,
  sub_ℕ, ◌+ℤ◌, ◌-ℤ◌, ◌≤ℤ◌, ◌<ℤ◌, ltb_ℤ, +ℤ_parts, -ℤ_parts, arith, if◌then◌else◌, Bool-cases, inl,
  inr,
}

abbrev pub times : ℕ → ℤ → ℤ
times n a = sub_ℕ (n * pos_part a) (n * neg_part a)

-- `computeRange`.
unfoldable pub compute_range : ℕ → ℤ → ℤ → ℤ × ℤ
compute_range padding l r =
    (times 100 l -ℤ times padding (r -ℤ l), times 100 r +ℤ times padding (r -ℤ l))

unfoldable pub get_chart_range : ℕ → ℕ → Option ℤ → Option ℤ → ℤ × ℤ
unfolding compute_range
get_chart_range padding radius none none = compute_range padding (pos 0) (pos 1)
get_chart_range padding radius (some focus) none =
    compute_range padding (focus -ℤ pos radius) (focus +ℤ pos radius)
get_chart_range padding radius none (some focus) =
    compute_range padding (focus -ℤ pos radius) (focus +ℤ pos radius)
get_chart_range padding radius (some min) (some max) =
    if ltb_ℤ min max
    then compute_range padding min max
    else compute_range padding (min -ℤ pos radius) (min +ℤ pos radius)

abbrev pub Covers : ℤ × ℤ → ℤ → Type 0
Covers (low, high) a = (low ≤ℤ times 100 a) × (times 100 a ≤ℤ high)

times-positive : (n : ℕ) (a : ℤ) → pos 0 ≤ℤ a → pos 0 ≤ℤ times n a
times-positive n (pos k) h = ground arith
times-positive n (negsuc k) h = ground arith

times-hundred :
    (a : ℤ) → pos_part (times 100 a) + 100 * neg_part a ≡ 100 * pos_part a + neg_part (times 100 a)
times-hundred (pos k) = ground arith
times-hundred (negsuc k) = ground arith

compute_range-Covers :
    (padding : ℕ) (l r a : ℤ)
    → l <ℤ r
    → l ≤ℤ a
    → a ≤ℤ r
    → Covers (compute_range padding l r) a
      × ((compute_range padding l r).0 <ℤ (compute_range padding l r).1)
unfolding compute_range
compute_range-Covers padding l r a h low high =
    let width = r -ℤ l in
    let wide : pos 0 ≤ℤ width = omega (arith, h, -ℤ_parts r l) in
    let padded = times-positive padding width wide in
    (
      (
        omega (
          arith,
          low,
          times-hundred l,
          times-hundred a,
          -ℤ_parts (times 100 l) (times padding width),
          padded,
        ),
        omega (
          arith,
          high,
          times-hundred r,
          times-hundred a,
          +ℤ_parts (times 100 r) (times padding width),
          padded,
        ),
      ),
      omega (
        arith,
        h,
        times-hundred l,
        times-hundred r,
        times-hundred a,
        -ℤ_parts (times 100 l) (times padding width),
        +ℤ_parts (times 100 r) (times padding width),
        padded,
      ),
    )

compute_range-around :
    (padding radius : ℕ) (m a : ℤ)
    → 0 < radius
    → m ≤ℤ a
    → a ≤ℤ m
    → let range = compute_range padding (m -ℤ pos radius) (m +ℤ pos radius) in
      Covers range a × (range.0 <ℤ range.1)
compute_range-around padding radius m a wide low high =
    let down = -ℤ_parts m (pos radius) in
    let up = +ℤ_parts m (pos radius) in
    compute_range-Covers padding (m -ℤ pos radius) (m +ℤ pos radius) a
      (omega (arith, wide, down, up)) (omega (arith, down, low)) (omega (arith, up, high))

-- The number lies between the bounds, the same two if only one is given, and 0 and 1 without any.
abbrev pub IsShown : Option ℤ → Option ℤ → ℤ → Type 0
IsShown none none a = (pos 0 ≤ℤ a) × (a ≤ℤ pos 1)
IsShown (some m) none a = (m ≤ℤ a) × (a ≤ℤ m)
IsShown none (some m) a = (m ≤ℤ a) × (a ≤ℤ m)
IsShown (some min) (some max) a = (min ≤ℤ a) × (a ≤ℤ max)

-- With a positive radius, a chart shows a range of positive width that holds every number between
-- the bounds, a single bound that is given, and 0 to 1 if none is.
pub get_chart_range-Covers :
    (padding radius : ℕ) (min max : Option ℤ) (a : ℤ)
    → 0 < radius
    → IsShown min max a
    → Covers (get_chart_range padding radius min max) a
      × ((get_chart_range padding radius min max).0 <ℤ (get_chart_range padding radius min max).1)
unfolding get_chart_range
get_chart_range-Covers padding radius none none a wide (low, high) =
    compute_range-Covers padding (pos 0) (pos 1) a (omega arith) low high
get_chart_range-Covers padding radius (some m) none a wide (low, high) =
    compute_range-around padding radius m a wide low high
get_chart_range-Covers padding radius none (some m) a wide (low, high) =
    compute_range-around padding radius m a wide low high
get_chart_range-Covers padding radius (some min) (some max) a wide (low, high) =
    elim (Bool-cases (ltb_ℤ min max)) [
      | inl ordered ↦
          rw ordered (compute_range-Covers padding min max a (ltb→lt _ _ ordered) low high)
      | inr equal ↦ rw equal (
          compute_range-around padding radius min a wide low
            (omega (arith, low, high, ltb→le _ _ equal)))
    ]
