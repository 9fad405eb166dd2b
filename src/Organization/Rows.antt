-- ===== src/Organization/Rows.antt =====
-- web/js/pages/organization/users: the rows of the modal against the permissions of the user whom it
-- shows, while an admin edits them.
use Prim.Native.String.{String}
use text.Mathlib.Text.{◌==◌ as str_eq}
use text.Mathlib.TextEquality.{eq_iff}
use sigopt_server.Base.{
  ◌≡◌, refl, Bool, true, false, not, ◌&&◌, none, some, List, [], ◌∷◌, ◌++◌, map, filter, find, All,
  if◌then◌else◌, arith, Bool-cases, inl, inr,
}
use sigopt_server.Organization.PermissionsEditor.{is_used}
use sigopt_server.Organization.Users.{Permission, remove}
use sigopt_server.Utils.Dict.{Dict, get}

abbrev pub for_client : String → Permission → Bool
for_client client_id p = str_eq p.client client_id

abbrev pub replaced : Permission → Permission → Permission
replaced new old = if str_eq old.client new.client then new else old

pub get-remove :
    (k j : String) (d : Dict Permission)
    → get j (remove k d) ≡ (if str_eq k j then none else get j d)
unfolding get remove
get-remove k j [] = ground arith
get-remove k j ((i, p) ∷ d) = ground (arith, eq_iff i k, eq_iff i j, eq_iff k j, get-remove k j d)

-- The row of each team after an addition, a removal and a replacement.
pub find-added :
    (c : String) (p : Permission) (ps : List Permission)
    → is_used ps p.client ≡ false
    → find (for_client c) (ps ++ p ∷ [])
      ≡ (if str_eq p.client c then some p else find (for_client c) ps)
find-added c p [] h = refl
find-added c p (q ∷ ps) h =
    ground
      (arith, h, eq_iff q.client c, eq_iff p.client c, eq_iff q.client p.client, find-added c p ps)

pub find-removed :
    (k c email : String) (ps : List Permission)
    → All (λ (p : Permission). p.email ≡ email) ps
    → find
        (for_client c)
        (filter (λ (p : Permission). not (str_eq p.client k && str_eq p.email email)) ps)
      ≡ (if str_eq k c then none else find (for_client c) ps)
find-removed k c email [] h = ground arith
find-removed k c email (q ∷ ps) (same, h) = ground (
  arith,
  (eq_iff q.email email).1 same,
  eq_iff q.client k,
  eq_iff q.client c,
  eq_iff k c,
  find-removed k c email ps h,
)

find-apart :
    (c : String) (p : Permission) (ps : List Permission)
    → str_eq p.client c ≡ false
    → find (for_client c) (map (replaced p) ps) ≡ find (for_client c) ps
find-apart c p [] h = refl
find-apart c p (q ∷ ps) h =
    ground (
      arith,
      h,
      eq_iff q.client p.client,
      eq_iff q.client c,
      eq_iff p.client c,
      find-apart c p ps h,
    )

find-own :
    (c : String) (p : Permission) (ps : List Permission)
    → str_eq p.client c ≡ true
    → is_used ps p.client ≡ true
    → find (for_client c) (map (replaced p) ps) ≡ some p
find-own c p [] h u = cc
find-own c p (q ∷ ps) h u =
    ground (
      arith,
      h,
      u,
      eq_iff q.client p.client,
      eq_iff q.client c,
      eq_iff p.client c,
      find-own c p ps h,
    )

pub find-replaced :
    (c : String) (p : Permission) (ps : List Permission)
    → is_used ps p.client ≡ true
    → find (for_client c) (map (replaced p) ps)
      ≡ (if str_eq p.client c then some p else find (for_client c) ps)
find-replaced c p ps u = elim (Bool-cases (str_eq p.client c)) [
  | inl own ↦ rw own (find-own c p ps own u)
  | inr apart ↦ rw apart (find-apart c p ps apart)
]

pub All-replaced :
    (email : String) (p : Permission) (ps : List Permission)
    → p.email ≡ email
    → All (λ (p : Permission). p.email ≡ email) ps
    → All (λ (p : Permission). p.email ≡ email) (map (replaced p) ps)
All-replaced email p [] e h = tt
All-replaced email p (q ∷ ps) e (own, h) = (ground (arith, e, own), All-replaced email p ps e h)
