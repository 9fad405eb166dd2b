-- ===== src/Chart/BestSeen.antt =====
-- web/js/chart/best_seen_trace.js: the best point so far, for each point of the data. A value is an
-- integer, and `aggregate` one of `_.max` and `_.min`; `reject` and `getValue` are arguments.
use sigopt_server.Base.{
  not, ◌&&◌, ℕ, zero, suc, ◌≡◌, refl, ap, ◌∙◌, subst, Bool, true, false, Option, none, some, List,
  [], ◌∷◌, ◌++◌, append_assoc, append-nil, length, All, All-append, All-imp, ℤ, ltb_ℤ, arith,
  Bool-cases, inl, inr, if◌then◌else◌,
}

pub data Aggregate : Type 0 where
  maximum minimum : Aggregate

-- Whether the later of two values takes the place of the earlier, as underscore has it.
abbrev pub is_better : Aggregate → ℤ → ℤ → Bool
is_better maximum later earlier = ltb_ℤ earlier later
is_better minimum later earlier = ltb_ℤ later earlier

pub record Seen (P : Type 0) : Type 0 where
  pub point : P
  pub value : ℤ

module _ {P : Type 0} (aggregate : Aggregate) (reject : P → Bool) (get_value : P → ℤ) where
  -- `aggregate(acceptablePoints, "value")`, or null without points.
  unfoldable pub next_best : Option (Seen P) → Option (Seen P) → Option (Seen P)
  next_best none next = next
  next_best (some last) none = some last
  next_best (some last) (some next) =
      if is_better aggregate next.value last.value then some next else some last

  unfoldable pub seen_at : P → Option (Seen P)
  seen_at d = if reject d then none else some (record { point = d; value = get_value d })

  -- The `reduce`, with the last entry of the trace.
  unfoldable pub trace_from : Option (Seen P) → List P → List (Option (Seen P))
  unfolding next_best seen_at
  trace_from last [] = []
  trace_from last (d ∷ rest) = let best = next_best last (seen_at d) in best ∷ trace_from best rest

  unfoldable pub make_best_seen_trace : List P → List (Option (Seen P))
  unfolding trace_from
  make_best_seen_trace points = trace_from none points

  abbrev pub IsIn : P → List P → Type 0
  IsIn d points = (before : List P) × (after : List P) × (points ≡ before ++ d ∷ after)

  -- The point is accepted, with its value, and no accepted one is better.
  abbrev pub IsBest : List P → Option (Seen P) → Type 0
  IsBest points none = All (λ d. reject d ≡ true) points
  IsBest points (some s) =
      IsIn s.point points
      × (reject s.point ≡ false)
      × (s.value ≡ get_value s.point)
      × All (λ d. (not (reject d) && is_better aggregate (get_value d) s.value) ≡ false) points

  better_irrefl : (v : ℤ) → is_better aggregate v v ≡ false
  better_irrefl v = elim aggregate [ maximum ↦ ground arith | minimum ↦ ground arith ]

  better_trans :
      (v later earlier : ℤ)
      → is_better aggregate later earlier ≡ true
      → is_better aggregate v earlier ≡ false
      → is_better aggregate v later ≡ false
  better_trans v later earlier = elim aggregate [
    | maximum ↦ λ h g. ground (arith, h, g)
    | minimum ↦ λ h g. ground (arith, h, g)
  ]

  -- No accepted point is better than the value.
  abbrev pub IsUnbeaten : ℤ → P → Type 0
  IsUnbeaten v d = (not (reject d) && is_better aggregate (get_value d) v) ≡ false

  IsUnbeaten-trans :
      (x : P) (later earlier : ℤ)
      → is_better aggregate later earlier ≡ true
      → IsUnbeaten earlier x
      → IsUnbeaten later x
  IsUnbeaten-trans x later earlier better unbeaten = elim (Bool-cases (reject x)) [
    | inl rejected ↦ rw rejected refl
    | inr accepted ↦
        rw accepted
          (better_trans (get_value x) later earlier better (ground (arith, accepted, unbeaten)))
  ]

  IsIn-append : (d : P) (points more : List P) → IsIn d points → IsIn d (points ++ more)
  IsIn-append d points more (before, after, e) =
      (before, after ++ more, ap (λ xs. xs ++ more) e ∙ append_assoc before (d ∷ after) more)

  extended :
      (points : List P) (v : ℤ) (d : P)
      → All (IsUnbeaten v) points
      → IsUnbeaten v d
      → All (IsUnbeaten v) (points ++ (d ∷ []))
  extended points v d h g = All-append (IsUnbeaten v) points (d ∷ []) h (g, tt)

  next_best-IsBest :
      (points : List P) (last : Option (Seen P)) (d : P)
      → IsBest points last
      → IsBest (points ++ (d ∷ [])) (next_best last (seen_at d))
  unfolding next_best seen_at
  next_best-IsBest points none d h = elim (Bool-cases (reject d)) [
    | inl rejected ↦
        rw rejected (All-append (λ x. reject x ≡ true) points (d ∷ []) h (rejected, tt))
    | inr accepted ↦ rw accepted (
      (points, [], refl),
      accepted,
      refl,
      extended points (get_value d) d
          (All-imp (λ x. reject x ≡ true) (IsUnbeaten (get_value d)) points
            (λ x r. ground (arith, r)) h)
          (ground (arith, better_irrefl (get_value d))),
    )
  ]
  next_best-IsBest points (some s) d (there, ok, own, best) = elim (Bool-cases (reject d)) [
    | inl rejected ↦ rw rejected (
      IsIn-append s.point points (d ∷ []) there,
      ok,
      own,
      extended points s.value d best (ground (arith, rejected)),
    )
    | inr accepted ↦ rw accepted (elim (Bool-cases (is_better aggregate (get_value d) s.value)) [
      | inl better ↦ rw better (
        (points, [], refl),
        accepted,
        refl,
        extended points (get_value d) d
            (All-imp (IsUnbeaten s.value) (IsUnbeaten (get_value d)) points
              (λ x r. IsUnbeaten-trans x (get_value d) s.value better r) best)
            (ground (arith, better_irrefl (get_value d))),
      )
      | inr worse ↦ rw worse (
        IsIn-append s.point points (d ∷ []) there,
        ok,
        own,
        extended points s.value d best (ground (arith, worse)),
      )
    ])
  ]

  pub nth_entry : ℕ → List (Option (Seen P)) → Option (Option (Seen P))
  nth_entry n [] = none
  nth_entry zero (o ∷ os) = some o
  nth_entry (suc n) (o ∷ os) = nth_entry n os

  trace_from-IsBest :
      (seen before : List P) (d : P) (after : List P) (last : Option (Seen P))
      → IsBest seen last
      → (o : Option (Seen P)) × ((nth_entry (length before) (trace_from last (before ++ d ∷ after))
            ≡ some o)
          × IsBest ((seen ++ before) ++ (d ∷ [])) o)
  unfolding trace_from nth_entry
  trace_from-IsBest seen [] d after last h =
      (next_best last (seen_at d), (refl, rw (append-nil seen) (next_best-IsBest seen last d h)))
  trace_from-IsBest seen (x ∷ before) d after last h =
      let (o, (entry, best)) =
        trace_from-IsBest (seen ++ (x ∷ [])) before d after (next_best last (seen_at x))
          (next_best-IsBest seen last x h) in
      (o, (entry, subst (λ xs. IsBest (xs ++ (d ∷ [])) o) (append_assoc seen (x ∷ []) before) best))

  -- The entry of the trace at each point is null if that point and all before it are rejected, and
  -- otherwise an accepted one among them, with its value, than which none of the others that are
  -- accepted is better.
  pub make_best_seen_trace-IsBest :
      (before : List P) (d : P) (after : List P)
      → (o : Option (Seen P)) × ((nth_entry
              (length before)
              (make_best_seen_trace (before ++ d ∷ after))
            ≡ some o)
          × IsBest (before ++ (d ∷ [])) o)
  unfolding make_best_seen_trace
  make_best_seen_trace-IsBest before d after = trace_from-IsBest [] before d after none tt
