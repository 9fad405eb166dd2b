-- ===== src/Organization/Edits.antt =====
-- web/js/pages/organization/users: the edits of one user's permissions in the modal, one after another.
use Prim.Native.String.{String}
use text.Mathlib.Text.{◌==◌ as str_eq}
use sigopt_server.Base.{◌≡◌, ◌⊎◌, true, false, Option, none, some, List, [], ◌∷◌, find, All}
use sigopt_server.Organization.PermissionsEditor.{
  Edited, is_used, handle_permission_change, add_permission,
}
use sigopt_server.Organization.Rows.{for_client}
use sigopt_server.Organization.Users.{no_role, Permission, UserRelation}
use sigopt_server.Utils.Dict.{get}

-- What an admin does in the modal, with the answer of the API, none where it refuses: the role of a
-- row is changed, to no role when the row is deleted, or a row is added.
pub data Edit : Type 0 where
  changing : String → String → String → Option Permission → Edit
  adding : String → String → Option Permission → Edit

unfoldable pub apply : String → Edit → Edited → Edited
unfolding handle_permission_change add_permission
apply email (changing client_id new_role old_role answer) edited =
    handle_permission_change client_id email new_role old_role answer edited
apply email (adding client_id role answer) edited =
    add_permission client_id email role answer edited

-- The API answers with a permission of the user for the team.
abbrev pub IsFor : String → String → Permission → Type 0
IsFor client_id email p = (p.client ≡ client_id) × (p.email ≡ email)

-- What the modal offers: a row's role is changed from a role to a role, or deleted; a row is added for
-- a team that has none, with a role.
abbrev pub IsOffered : String → Edit → Edited → Type 0
IsOffered email (changing client_id new_role old_role none) edited = Unit
IsOffered email (changing client_id new_role old_role (some p)) edited =
    (str_eq new_role no_role ≡ true)
    ⊎ (IsFor client_id email p
        × ((str_eq new_role no_role ≡ false)
            × ((str_eq old_role no_role ≡ false) × (is_used edited.permissions client_id ≡ true))))
IsOffered email (adding client_id role none) edited = Unit
IsOffered email (adding client_id role (some p)) edited =
    IsFor client_id email p
    × ((str_eq role no_role ≡ false) × (is_used edited.permissions client_id ≡ false))

abbrev pub AreOffered : String → List Edit → Edited → Type 0
AreOffered email [] edited = Unit
AreOffered email (edit ∷ edits) edited =
    IsOffered email edit edited × AreOffered email edits (apply email edit edited)

unfoldable pub apply_all : String → List Edit → Edited → Edited
unfolding apply
apply_all email [] edited = edited
apply_all email (edit ∷ edits) edited = apply_all email edits (apply email edit edited)

-- The rows are the user's permissions in the page's state, team by team.
abbrev pub IsInSync : String → Edited → Type 0
IsInSync email edited =
    (r : UserRelation) × (get email edited.relations ≡ some r)
    × ((c : String) → get c r.permission_map ≡ find (for_client c) edited.permissions)
    × All (λ (p : Permission). p.email ≡ email) edited.permissions
