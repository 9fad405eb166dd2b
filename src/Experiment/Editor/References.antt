-- ===== src/Experiment/Editor/References.antt =====
-- web/js/experiment/editor.js: the conditions of the parameters refer to conditionals and values
-- that exist.
use Prim.Native.String.{String}
use text.Mathlib.Text.{◌==◌ as str_eq}
use text.Mathlib.TextEquality.{eq_iff}
use sigopt_server.Base.{
  ◌≡◌, refl, sym, ap, subst, ◌∙◌, false, not, some, List, [], ◌∷◌, ◌++◌, map, filter, arith,
  Bool-cases, inl, inr, if◌then◌else◌,
}
use sigopt_server.Experiment.Model.{Conditional}
use sigopt_server.Experiment.Editor.{find_conditional}

pub find_conditional-append :
    (key : String) (cs ds : List Conditional) (c : Conditional)
    → find_conditional key cs ≡ some c
    → find_conditional key (cs ++ ds) ≡ some c
find_conditional-append key [] ds c h = ground arith
find_conditional-append key (d ∷ cs) ds c h = ground (arith, find_conditional-append key cs ds c)

abbrev pub replace : String → Conditional → Conditional → Conditional
replace key changed c = if str_eq c.edit_key key then changed else c

replace-key :
    (key : String) (changed c : Conditional)
    → changed.edit_key ≡ key
    → (replace key changed c).edit_key ≡ c.edit_key
replace-key key changed c same = elim (Bool-cases (str_eq c.edit_key key)) [
  | inl hit ↦ rw hit (same ∙ sym ((eq_iff c.edit_key key).0 hit))
  | inr miss ↦ rw miss refl
]

-- A conditional is changed where it is found.
pub find_conditional-map :
    (key : String) (changed : Conditional) (k : String) (cs : List Conditional) (c : Conditional)
    → changed.edit_key ≡ key
    → find_conditional k cs ≡ some c
    → find_conditional k (map (replace key changed) cs) ≡ some (replace key changed c)
find_conditional-map key changed k [] c same h = ground arith
find_conditional-map key changed k (d ∷ cs) c same h = elim (Bool-cases (str_eq d.edit_key k)) [
  | inl hit ↦
      let d≡c : d ≡ c = ground (arith, h) in
      rw (replace-key key changed d same, hit) (ap (λ x. some (replace key changed x)) d≡c)
  | inr miss ↦
      rw (replace-key key changed d same, miss)
        (find_conditional-map key changed k cs c same (ground arith))
]

pub find_conditional-filter :
    (key k : String) (cs : List Conditional)
    → str_eq k key ≡ false
    → find_conditional k (filter (λ (c : Conditional). not (str_eq c.edit_key key)) cs)
      ≡ find_conditional k cs
find_conditional-filter key k [] other = refl
find_conditional-filter key k (c ∷ cs) other = elim (Bool-cases (str_eq c.edit_key key)) [
  | inl gone ↦
      let miss : str_eq c.edit_key k ≡ false =
        ground (arith, eq_iff c.edit_key key, eq_iff c.edit_key k, eq_iff k key) in
      rw (gone, miss) (find_conditional-filter key k cs other)
  | inr kept ↦
      rw kept (
        ap (λ o. if str_eq c.edit_key k then some c else o)
          (find_conditional-filter key k cs other))
]

pub find_conditional-key :
    (key : String) (cs : List Conditional) (c : Conditional)
    → find_conditional key cs ≡ some c
    → c.edit_key ≡ key
find_conditional-key key [] c h = ground arith
find_conditional-key key (d ∷ cs) c h = elim (Bool-cases (str_eq d.edit_key key)) [
  | inl hit ↦
      let d≡c : d ≡ c = ground (arith, h) in
      subst (λ (x : Conditional). x.edit_key ≡ key) d≡c ((eq_iff d.edit_key key).0 hit)
  | inr miss ↦ find_conditional-key key cs c (ground arith)
]
