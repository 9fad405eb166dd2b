-- ===== src/Organization/Tests.antt =====
-- web/js/pages/organization/users: a page with an invite and a member, and the modal for the member.
use sigopt_server.Base.{◌≡◌, refl, none, some, List, [], ◌∷◌, inl}
use sigopt_server.Organization.Edits.{Edit, changing, adding, apply, apply_all, IsInSync}
use sigopt_server.Organization.Mounted.{mounted-InSync}
use sigopt_server.Organization.PermissionsEditor.{open_modal, get_available_clients}
use sigopt_server.Organization.Users.{
  Permission, Invite, Membership, membership_relation, user_relation_map, upsert_permission,
}
use sigopt_server.Utils.Dict.{get}

abbrev permission : Permission
permission = record { client = "1"; email = "ann@a.com"; role = "user" }

abbrev invite : Invite
invite = record {
  email = "bob@a.com";
  membership_type = "member";
  pending_permissions = record { client = "1"; email = "bob@a.com"; role = "admin" } ∷ [];
}

abbrev membership : Membership
membership = record { user_email = "ann@a.com"; type_name = "member" }

ann_is_found :
    get "ann@a.com" (user_relation_map (invite ∷ []) (membership ∷ []) (permission ∷ []))
    ≡ some (membership_relation (permission ∷ []) membership)
unfolding user_relation_map get
ann_is_found = refl

-- A permission for an email that the page does not have is lost.
unknown_lost : upsert_permission permission [] ≡ []
unfolding upsert_permission
unknown_lost = refl

offered_clients : get_available_clients ("1" ∷ "2" ∷ []) (permission ∷ []) ≡ "2" ∷ []
unfolding get_available_clients
offered_clients = refl

-- A team is added, the role of the first one is changed in vain, and the first one is deleted.
abbrev edits : List Edit
edits =
    adding "2" "user" (some (record permission { client = "2" }))
    ∷ changing "1" "admin" "user" none
    ∷ changing "1" "uninvited" "user" (some permission)
    ∷ []

mounted-InSync_example : IsInSync "ann@a.com" (
    apply_all "ann@a.com" edits (
      open_modal
        (membership_relation (permission ∷ []) membership)
        (user_relation_map (invite ∷ []) (membership ∷ []) (permission ∷ []))))
unfolding apply open_modal membership_relation user_relation_map
mounted-InSync_example =
    mounted-InSync (invite ∷ []) (membership ∷ []) (permission ∷ []) "ann@a.com"
      (membership_relation (permission ∷ []) membership) edits ((refl, tt), tt) refl
      (((refl, refl), (refl, refl)), (tt, (inl refl, tt)))
