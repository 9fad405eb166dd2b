-- ===== src/Organization/Mounted.antt =====
-- web/js/pages/organization/users/page.js: what the page mounts with is by emails and teams.
use Prim.Native.String.{String}
use text.Mathlib.Text.{◌==◌ as str_eq}
use text.Mathlib.TextEquality.{eq_iff}
use sigopt_server.Base.{
  ◌≡◌, refl, some, List, [], ◌∷◌, map, All, All-append, All-map, All-imp, All-filter, arith,
  Bool-cases, inl, inr, subst, sym,
}
use sigopt_server.Organization.Edits.{Edit, AreOffered, IsInSync, apply_all}
use sigopt_server.Organization.InSync.{opened-InSync}
use sigopt_server.Organization.PermissionsEditor.{open_modal}
use sigopt_server.Organization.Users.{
  Permission, Invite, Membership, UserRelation, index_by, create_invite_relation,
  membership_relation, user_relation_map,
}
use sigopt_server.Utils.Dict.{Dict, get, set, extend}

module _ {V : Type 0} (Q : String × V → Type 0) where
  All-set : (k : String) (v : V) (d : Dict V) → Q (k, v) → All Q d → All Q (set k v d)
  unfolding set
  All-set k v [] q h = (q, tt)
  All-set k v ((j, w) ∷ d) q (own, h) = elim (Bool-cases (str_eq j k)) [
    | inl same ↦ rw same (subst (λ i. Q (i, v)) (sym ((eq_iff j k).0 same)) q, h)
    | inr apart ↦ rw apart (own, All-set k v d q h)
  ]

  All-extend : (d e : Dict V) → All Q d → All Q e → All Q (extend d e)
  unfolding extend
  All-extend d [] h q = h
  All-extend d ((k, v) ∷ e) h (q, qs) = All-extend (set k v d) e (All-set k v d q h) qs

  All-get : (k : String) (v : V) (d : Dict V) → All Q d → get k d ≡ some v → Q (k, v)
  unfolding get
  All-get k v [] h e = cc
  All-get k v ((j, w) ∷ d) (own, h) e = elim (Bool-cases (str_eq j k)) [
    | inl same ↦
        subst (λ i. Q (i, v)) ((eq_iff j k).0 same)
          (subst (λ u. Q (j, u)) (ground (arith, e, same)) own)
    | inr apart ↦ All-get k v d h (ground (arith, e, apart))
  ]

module _ {A : Type 0} (P : A → Type 0) (key : A → String) where
  All-index_by :
      (items : List A) → All P items → All (λ (k, a). (k ≡ key a) × P a) (index_by key items)
  unfolding index_by
  All-index_by items h =
      All-extend (λ (k, a). (k ≡ key a) × P a) [] (map (λ a. (key a, a)) items) tt
        (All-map _ (λ a. (key a, a)) items (All-imp P _ items (λ a p. (refl, p)) h))

-- The permissions of a relation stand under their teams, and are for its email.
abbrev pub IsKeyed : UserRelation → Type 0
IsKeyed r = All (λ (k, p). (k ≡ p.client) × (p.email ≡ r.email)) r.permission_map

-- The API gives an invite with permissions for its own email.
abbrev pub IsOwn : Invite → Type 0
IsOwn invite = All (λ (p : Permission). p.email ≡ invite.email) invite.pending_permissions

create_invite_relation-IsKeyed :
    (invite : Invite) → IsOwn invite → IsKeyed (create_invite_relation invite)
unfolding create_invite_relation
create_invite_relation-IsKeyed invite own =
    All-index_by (λ (p : Permission). p.email ≡ invite.email) (λ p. p.client)
      invite.pending_permissions own

All-true {ℓ} : {A : Type ℓ} (xs : List A) → All (λ x. Unit {0}) xs
All-true [] = tt
All-true (x ∷ xs) = (tt, All-true xs)

membership_relation-IsKeyed :
    (permissions : List Permission) (membership : Membership)
    → IsKeyed (membership_relation permissions membership)
unfolding membership_relation
membership_relation-IsKeyed permissions membership =
    elim (Bool-cases (str_eq membership.type_name "owner")) [
      | inl owner ↦ rw owner tt
      | inr member ↦ rw member (
          All-index_by (λ (p : Permission). p.email ≡ membership.user_email) (λ p. p.client) _
            (All-imp _ _ _ (λ p k. (eq_iff p.email membership.user_email).0 k.1)
              (All-filter (λ p. Unit {0}) (λ (p : Permission). str_eq p.email membership.user_email)
                permissions (All-true permissions))))
    ]

All-each {ℓ κ} : {A : Type ℓ} (P : A → Type κ) (xs : List A) → ((x : A) → P x) → All P xs
All-each P [] f = tt
All-each P (x ∷ xs) f = (f x, All-each P xs f)

mounted-IsKeyed :
    (invites : List Invite) (memberships : List Membership) (permissions : List Permission)
    → All IsOwn invites
    → All (λ (k, r). (k ≡ r.email) × IsKeyed r) (user_relation_map invites memberships permissions)
unfolding user_relation_map
mounted-IsKeyed invites memberships permissions own =
    All-index_by IsKeyed (λ r. r.email) _
      (All-append IsKeyed (map create_invite_relation invites) _
        (All-map IsKeyed create_invite_relation invites
          (All-imp IsOwn _ invites create_invite_relation-IsKeyed own))
        (All-map IsKeyed (membership_relation permissions) memberships
          (All-each _ memberships (membership_relation-IsKeyed permissions))))

-- When the page has mounted with invites whose permissions are for their own emails, and the modal is
-- opened for a user of the page: whatever is then changed, deleted and added there, as the modal
-- offers it, and whatever of it the API refuses, the page still has the user, the modal's row of each
-- team is the permission that the page has for it, and there are no rows of other users.
pub mounted-InSync :
    (invites : List Invite) (memberships : List Membership) (permissions : List Permission)
    (email : String) (r : UserRelation) (edits : List Edit)
    → All IsOwn invites
    → get email (user_relation_map invites memberships permissions) ≡ some r
    → AreOffered email edits (open_modal r (user_relation_map invites memberships permissions))
    → IsInSync email
        (apply_all email edits (open_modal r (user_relation_map invites memberships permissions)))
mounted-InSync invites memberships permissions email r edits own e offered =
    let (key, keyed) =
      All-get (λ (k, r). (k ≡ r.email) × IsKeyed r) email r _
        (mounted-IsKeyed invites memberships permissions own) e in
    opened-InSync email _ r edits e
      (subst (λ (m : String). All (λ (k, p). (k ≡ p.client) × (p.email ≡ m)) r.permission_map)
        (sym key) keyed)
      offered
