-- ===== src/Organization/InSync.antt =====
-- web/js/pages/organization/users: the modal for the teams of one user and the page behind it show the
-- same permissions.
use Prim.Native.String.{String}
use text.Mathlib.Text.{◌==◌ as str_eq}
use text.Mathlib.TextPositions.{eq_refl}
use sigopt_server.Base.{
  ◌≡◌, refl, true, false, not, ◌&&◌, none, some, List, [], ◌∷◌, ◌++◌, map, filter, find, All,
  All-kept, All-append, if◌then◌else◌, inl, inr, sym, subst,
}
use sigopt_server.Organization.Edits.{
  Edit, changing, adding, apply, apply_all, IsFor, IsOffered, AreOffered, IsInSync,
}
use sigopt_server.Organization.PermissionsEditor.{
  Edited, is_used, with_new_permission, open_modal, values,
}
use sigopt_server.Organization.Rows.{
  for_client, replaced, get-remove, find-added, find-removed, find-replaced, All-replaced,
}
use sigopt_server.Organization.Users.{
  no_role, Permission, UserRelation, remove, on_permission_change, upsert_permission,
  delete_permission, modify_user_permissions,
}
use sigopt_server.Utils.Dict.{Dict, get, set, get-set}

-- The page's state after a change of the permissions of a user whom it has.
get-modified :
    (email : String) (updater : Dict Permission → Dict Permission) (relations : Dict UserRelation)
    (r : UserRelation)
    → get email relations ≡ some r
    → get email (modify_user_permissions email updater relations)
      ≡ some (record r { permission_map = updater r.permission_map })
unfolding modify_user_permissions
get-modified email updater relations r e =
    rw
      (
        e,
        get-set email email (record r { permission_map = updater r.permission_map }) relations,
        eq_refl email,
      )
      refl

upserted-InSync :
    (email client_id role : String) (p : Permission) (relations : Dict UserRelation)
    (before after : List Permission)
    → IsFor client_id email p
    → str_eq role no_role ≡ false
    → ((c : String)
        → find (for_client c) after
          ≡ (if str_eq p.client c then some p else find (for_client c) before))
    → All (λ (p : Permission). p.email ≡ email) after
    → IsInSync email (record { permissions = before; relations = relations })
    → IsInSync email (record {
      permissions = after;
      relations = on_permission_change client_id email role (some p) relations;
    })
unfolding on_permission_change upsert_permission
upserted-InSync email client_id role p relations before after (for, to) kept same own
      (r, e, rows, emails) =
    (
      record r { permission_map = set p.client p r.permission_map },
      rw kept (
          subst
            (λ k.
              get email (modify_user_permissions k (set p.client p) relations)
              ≡ some (record r { permission_map = set p.client p r.permission_map }))
            (sym to) (get-modified email (set p.client p) relations r e)),
      λ c. rw (get-set p.client c p r.permission_map, same c, rows c) refl,
      own,
    )

removed-InSync :
    (email client_id role : String) (p : Permission) (relations : Dict UserRelation)
    (before : List Permission)
    → str_eq role no_role ≡ true
    → IsInSync email (record { permissions = before; relations = relations })
    → IsInSync email (record {
      permissions =
          filter
            (λ (p : Permission). not (str_eq p.client client_id && str_eq p.email email))
            before;
      relations = on_permission_change client_id email role (some p) relations;
    })
unfolding on_permission_change delete_permission
removed-InSync email client_id role p relations before deleted (r, e, rows, emails) = (
  record r { permission_map = remove client_id r.permission_map },
  rw deleted (get-modified email (remove client_id) relations r e),
  λ c.
      rw
        (
          get-remove client_id c r.permission_map,
          find-removed client_id c email before emails,
          rows c,
        )
        refl,
  All-kept _ (λ (p : Permission). not (str_eq p.client client_id && str_eq p.email email)) before
      emails,
)

rows-deleted :
    (client_id email new_role old_role : String) (p : Permission) (ps : List Permission)
    → str_eq new_role no_role ≡ true
    → with_new_permission client_id email new_role old_role p ps
      ≡ filter (λ (p : Permission). not (str_eq p.client client_id && str_eq p.email email)) ps
unfolding with_new_permission
rows-deleted client_id email new_role old_role p ps h = rw h refl

rows-replaced :
    (client_id email new_role old_role : String) (p : Permission) (ps : List Permission)
    → str_eq new_role no_role ≡ false
    → str_eq old_role no_role ≡ false
    → with_new_permission client_id email new_role old_role p ps ≡ map (replaced p) ps
unfolding with_new_permission
rows-replaced client_id email new_role old_role p ps h k = rw (h, k) refl

apply-InSync :
    (email : String) (edit : Edit) (edited : Edited)
    → IsOffered email edit edited
    → IsInSync email edited
    → IsInSync email (apply email edit edited)
unfolding apply
apply-InSync email (changing client_id new_role old_role none) edited offered s = s
apply-InSync email (changing client_id new_role old_role (some p)) edited (inl deleted) s =
    subst
      (λ ps. IsInSync email (record {
        permissions = ps;
        relations = on_permission_change client_id email new_role (some p) edited.relations;
      }))
      (sym (rows-deleted client_id email new_role old_role p edited.permissions deleted))
      (removed-InSync email client_id new_role p edited.relations edited.permissions deleted s)
apply-InSync email (changing client_id new_role old_role (some p)) edited
      (inr (for, (kept, (held, used)))) s =
    subst
      (λ ps. IsInSync email (record {
        permissions = ps;
        relations = on_permission_change client_id email new_role (some p) edited.relations;
      }))
      (sym (rows-replaced client_id email new_role old_role p edited.permissions kept held))
      (upserted-InSync email client_id new_role p edited.relations edited.permissions
        (map (replaced p) edited.permissions) for kept
        (λ c.
          find-replaced c p edited.permissions
            (subst (λ k. is_used edited.permissions k ≡ true) (sym for.0) used))
        (All-replaced email p edited.permissions for.1 s.3) s)
apply-InSync email (adding client_id role none) edited offered s = s
apply-InSync email (adding client_id role (some p)) edited (for, (kept, unused)) s =
    upserted-InSync email client_id role p edited.relations edited.permissions
      (edited.permissions ++ p ∷ []) for kept
      (λ c.
        find-added c p edited.permissions
          (subst (λ k. is_used edited.permissions k ≡ false) (sym for.0) unused))
      (All-append _ edited.permissions (p ∷ []) s.3 (for.1, tt)) s

-- The rows that the modal opens with.
find-values :
    (email c : String) (d : Dict Permission)
    → All (λ (k, p). (k ≡ p.client) × (p.email ≡ email)) d
    → get c d ≡ find (for_client c) (values d)
unfolding get
find-values email c [] keyed = refl
find-values email c ((k, p) ∷ d) ((key, own), keyed) = rw (key, find-values email c d keyed) refl

All-values :
    (email : String) (d : Dict Permission)
    → All (λ (k, p). (k ≡ p.client) × (p.email ≡ email)) d
    → All (λ (p : Permission). p.email ≡ email) (values d)
All-values email [] keyed = tt
All-values email ((k, p) ∷ d) ((key, own), keyed) = (own, All-values email d keyed)

apply_all-InSync :
    (email : String) (edits : List Edit) (edited : Edited)
    → AreOffered email edits edited
    → IsInSync email edited
    → IsInSync email (apply_all email edits edited)
unfolding apply_all
apply_all-InSync email [] edited offered s = s
apply_all-InSync email (edit ∷ edits) edited (now, later) s =
    apply_all-InSync email edits (apply email edit edited) later
      (apply-InSync email edit edited now s)

-- The modal is opened for a user of the page whose permissions are held under their teams. Whatever
-- is then changed, deleted and added there, as the modal offers it, and whatever of it the API
-- refuses: the page still has the user, the modal's row of each team is the permission that the page
-- has for it, and there are no rows of other users.
pub opened-InSync :
    (email : String) (relations : Dict UserRelation) (r : UserRelation) (edits : List Edit)
    → get email relations ≡ some r
    → All (λ (k, p). (k ≡ p.client) × (p.email ≡ email)) r.permission_map
    → AreOffered email edits (open_modal r relations)
    → IsInSync email (apply_all email edits (open_modal r relations))
unfolding open_modal
opened-InSync email relations r edits e keyed offered =
    apply_all-InSync email edits (open_modal r relations) offered (
      r,
      e,
      λ c. find-values email c r.permission_map keyed,
      All-values email r.permission_map keyed,
    )
