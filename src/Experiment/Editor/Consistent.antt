-- ===== src/Experiment/Editor/Consistent.antt =====
-- web/js/experiment/editor.js: every step of the editor keeps the conditions consistent.
use Prim.Native.String.{String}
use text.Mathlib.Text.{◌==◌ as str_eq}
use text.Mathlib.TextEquality.{eq_iff}
use sigopt_server.Base.{
  All-imp, All-filter, All-kept, ◌≡◌, sym, subst, ◌∙◌, Bool, true, not, some, is_some, List, [],
  ◌∷◌, ◌++◌, map, filter, All, All-append, arith, Bool-cases, Option-cases, inl, inr,
}
use sigopt_server.Utils.Json.{has_key}
use sigopt_server.Utils.Json.Keys.{has_key-filter}
use sigopt_server.Experiment.Model.{Conditions, Conditional}
use sigopt_server.Experiment.Editor.{
  value_keys, find_conditional, difference, map_conditions, omit_condition,
}
use sigopt_server.Experiment.Editor.Selection.{
  with_condition, without_condition, values_of, without, change_at,
}
use sigopt_server.Experiment.Editor.Edits.{Refers}
use sigopt_server.Experiment.Editor.References.{
  find_conditional-append, replace, find_conditional-map, find_conditional-filter,
  find_conditional-key,
}

pub Refers-append :
    (cs ds : List Conditional) (x : String × List String) → Refers cs x → Refers (cs ++ ds) x
Refers-append cs ds x (c, (found, known)) = (c, (find_conditional-append x.0 cs ds c found, known))

Refers-subset :
    (cs : List Conditional) (k : String) (values : List String) (p : String → Bool)
    → Refers cs (k, values)
    → Refers cs (k, filter p values)
Refers-subset cs k values p (c, (found, known)) =
    (c, (found, All-kept (λ v. has_key (value_keys c) v ≡ true) p values known))

kept_value :
    (before after : List String) (v : String)
    → has_key before v ≡ true
    → not (has_key (difference before after) v) ≡ true
    → has_key after v ≡ true
kept_value before after v was kept =
    ground (arith, has_key-filter (λ k. not (has_key after k)) before v)

-- The values of a condition that are left when its conditional changes are values of the new one.
Refers-change :
    (key : String) (previous changed : Conditional) (cs : List Conditional) (k : String)
    (values : List String)
    → find_conditional key cs ≡ some previous
    → changed.edit_key ≡ key
    → Refers cs (k, values)
    → Refers
        (map (replace key changed) cs)
        (k, difference values (difference (value_keys previous) (value_keys changed)))
Refers-change key previous changed cs k values at same (c, (found, known)) =
    let removed = difference (value_keys previous) (value_keys changed) in
    let left =
      All-filter (λ v. has_key (value_keys c) v ≡ true) (λ v. not (has_key removed v)) values
        known in
    (
      replace key changed c,
      (
        find_conditional-map key changed k cs c same found,
        elim (Bool-cases (str_eq c.edit_key key)) [
          | inl hit ↦
              let k≡key = sym (find_conditional-key k cs c found) ∙ (eq_iff c.edit_key key).0 hit in
              let again : find_conditional key cs ≡ some c =
                subst (λ l. find_conditional l cs ≡ some c) k≡key found in
              let c≡previous : c ≡ previous = ground (arith, again, at) in
              rw hit (
                All-imp _ _ (difference values removed)
                  (λ v h.
                    kept_value (value_keys previous) (value_keys changed) v
                      (subst (λ d. has_key (value_keys d) v ≡ true) c≡previous h.0) h.1)
                  left)
          | inr miss ↦ rw miss (All-imp _ _ (difference values removed) (λ v h. h.0) left)
        ],
      ),
    )

pub AllRefer-change :
    (key : String) (previous changed : Conditional) (cs : List Conditional)
    → find_conditional key cs ≡ some previous
    → changed.edit_key ≡ key
    → (conditions : Conditions) → All (Refers cs) conditions
    → All (Refers (map (replace key changed) cs)) (
        map_conditions
          (λ values. difference values (difference (value_keys previous) (value_keys changed)))
          conditions)
AllRefer-change key previous changed cs at same [] h = tt
AllRefer-change key previous changed cs at same ((k, values) ∷ conditions) (r, h) = (
  Refers-change key previous changed cs k values at same r,
  AllRefer-change key previous changed cs at same conditions h,
)

pub AllRefer-omit :
    (key : String) (cs : List Conditional) (conditions : Conditions)
    → All (Refers cs) conditions
    → All
        (Refers (filter (λ (c : Conditional). not (str_eq c.edit_key key)) cs))
        (omit_condition key conditions)
AllRefer-omit key cs [] h = tt
AllRefer-omit key cs ((k, values) ∷ conditions) ((c, (found, known)), h) =
    elim (Bool-cases (str_eq k key)) [
      | inl gone ↦ rw gone (AllRefer-omit key cs conditions h)
      | inr other ↦ rw other (
        (c, (find_conditional-filter key k cs other ∙ found, known)),
        AllRefer-omit key cs conditions h,
      )
    ]

AllRefer-change_at :
    (key : String) (f : List String → List String) (cs : List Conditional) (conditions : Conditions)
    → ((values : List String) → Refers cs (key, values) → Refers cs (key, f values))
    → All (Refers cs) conditions
    → All (Refers cs) (change_at key f conditions)
AllRefer-change_at key f cs [] step h = tt
AllRefer-change_at key f cs ((k, values) ∷ conditions) step (r, h) = (
  elim (Bool-cases (str_eq k key)) [
    | inl hit ↦
        let k≡key = (eq_iff k key).0 hit in
        rw hit (
          subst (λ l. Refers cs (l, f values)) (sym k≡key)
            (step values (subst (λ l. Refers cs (l, values)) k≡key r)))
    | inr miss ↦ rw miss r
  ],
  AllRefer-change_at key f cs conditions step h,
)

pub AllRefer-with_condition :
    (cs : List Conditional) (c : Conditional) (value : String) (conditions : Conditions)
    → find_conditional c.edit_key cs ≡ some c
    → has_key (value_keys c) value ≡ true
    → All (Refers cs) conditions
    → All (Refers cs) (with_condition c.edit_key value conditions)
unfolding with_condition
AllRefer-with_condition cs c value conditions found known h =
    elim (Bool-cases (is_some (values_of c.edit_key conditions))) [
      | inl there ↦ rw there (
          AllRefer-change_at c.edit_key (λ values. without values value ++ (value ∷ [])) cs
            conditions
            (λ values r.
              let (d, (again, its)) = r in
              let d≡c : d ≡ c = ground (arith, again, found) in
              (
                c,
                (
                  found,
                  All-append (λ v. has_key (value_keys c) v ≡ true) (without values value)
                      (value ∷ [])
                      (subst
                        (λ x. All (λ v. has_key (value_keys x) v ≡ true) (without values value)) d≡c
                        (All-kept (λ v. has_key (value_keys d) v ≡ true) (λ v. not (str_eq v value))
                          values its))
                      (known, tt),
                ),
              ))
            h)
      | inr absent ↦ rw absent (
          All-append (Refers cs) conditions ((c.edit_key, value ∷ []) ∷ []) h
            ((c, (found, (known, tt))), tt))
    ]

Refers-values_of :
    (cs : List Conditional) (key : String) (conditions : Conditions) (values : List String)
    → All (Refers cs) conditions
    → values_of key conditions ≡ some values
    → Refers cs (key, values)
unfolding values_of
Refers-values_of cs key [] values h there = ground arith
Refers-values_of cs key ((k, ws) ∷ conditions) values (r, h) there =
    elim (Bool-cases (str_eq k key)) [
      | inl hit ↦
          let ws≡values : ws ≡ values = ground (arith, there) in
          subst (λ vs. Refers cs (key, vs)) ws≡values
            (subst (λ l. Refers cs (l, ws)) ((eq_iff k key).0 hit) r)
      | inr miss ↦ Refers-values_of cs key conditions values h (ground arith)
    ]

AllRefer-left :
    (cs : List Conditional) (key : String) (conditions : Conditions) (left : List String)
    → All (Refers cs) conditions
    → Refers cs (key, left)
    → All (Refers cs) (elim left [
      | [] ↦ omit_condition key conditions
      | v ∷ vs ↦ change_at key (λ w. v ∷ vs) conditions
    ])
AllRefer-left cs key conditions [] h r =
    All-kept (Refers cs) (λ (k, values). not (str_eq k key)) conditions h
AllRefer-left cs key conditions (v ∷ vs) h r =
    AllRefer-change_at key (λ w. v ∷ vs) cs conditions (λ values _. r) h

pub AllRefer-without_condition :
    (cs : List Conditional) (key value : String) (conditions : Conditions)
    → All (Refers cs) conditions
    → All (Refers cs) (without_condition key value conditions)
unfolding without_condition
AllRefer-without_condition cs key value conditions h =
    elim (Option-cases (values_of key conditions)) [
      | inl absent ↦ rw (absent, without_condition) h
      | inr (values, there) ↦
          rw (there, without_condition)
            (AllRefer-left cs key conditions (without values value) h (
              Refers-subset cs key values (λ v. not (str_eq v value))
                (Refers-values_of cs key conditions values h there)))
    ]
