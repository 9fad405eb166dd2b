-- ===== src/Organization/PermissionsEditor.antt =====
-- web/js/pages/organization/users/permissions_editor: the rows of the teams of one user, as the modal
-- web/js/pages/organization/users/modal/edit_teams.js holds them, beside the page's state.
use Prim.Native.String.{String}
use text.Mathlib.Text.{◌==◌ as str_eq}
use sigopt_server.Base.{
  Bool, not, ◌&&◌, Option, none, some, List, [], ◌∷◌, ◌++◌, map, filter, any, if◌then◌else◌,
}
use sigopt_server.Organization.Users.{no_role, Permission, UserRelation, on_permission_change}
use sigopt_server.Utils.Dict.{Dict}

-- `state.permissions` of the modal, and `state.userRelationMap` of the page.
pub record Edited : Type 0 where
  pub permissions : List Permission
  pub relations : Dict UserRelation

-- `_.values(userRelation.permissionMap)`.
abbrev pub values : {A : Type 0} → Dict A → List A
values d = map (λ (k, a). a) d

unfoldable pub open_modal : UserRelation → Dict UserRelation → Edited
open_modal relation relations = record {
  permissions = values relation.permission_map;
  relations = relations;
}

-- `usedClients[c.id]`.
abbrev pub is_used : List Permission → String → Bool
is_used permissions client_id = any (λ (p : Permission). str_eq p.client client_id) permissions

-- The teams that a new row offers, before they are sorted by their names.
unfoldable pub get_available_clients : List String → List Permission → List String
get_available_clients client_ids permissions =
    filter (λ id. not (is_used permissions id)) client_ids

unfoldable pub with_new_permission :
    String → String → String → String → Permission → List Permission → List Permission
with_new_permission client_id email new_role old_role new_permission permissions =
    if str_eq new_role no_role
    then filter (λ (p : Permission). not (str_eq p.client client_id && str_eq p.email email))
        permissions
    else if str_eq old_role no_role
    then permissions ++ new_permission ∷ []
    else map
        (λ (old_permission : Permission).
          if str_eq old_permission.client new_permission.client
          then new_permission
          else old_permission)
        permissions

-- A refusal is caught after the page and before the rows.
unfoldable pub handle_permission_change :
    String → String → String → String → Option Permission → Edited → Edited
unfolding on_permission_change with_new_permission
handle_permission_change client_id email new_role old_role none edited = edited
handle_permission_change client_id email new_role old_role (some new_permission) edited = record {
  permissions =
      with_new_permission client_id email new_role old_role new_permission edited.permissions;
  relations = on_permission_change client_id email new_role (some new_permission) edited.relations;
}

-- The row of a new team.
unfoldable pub add_permission : String → String → String → Option Permission → Edited → Edited
unfolding on_permission_change
add_permission client_id email role none edited = edited
add_permission client_id email role (some new_permission) edited = record {
  permissions = edited.permissions ++ new_permission ∷ [];
  relations = on_permission_change client_id email role (some new_permission) edited.relations;
}
