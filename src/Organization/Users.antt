-- ===== src/Organization/Users.antt =====
-- web/js/pages/organization/users/page.js: the users of an organization and who is invited, by their
-- emails, with their permissions by teams. Ids are texts, as keys of objects are. A relation is shared
-- by the states of the page that hold it, and is changed in place.
use Prim.Native.String.{String}
use text.Mathlib.Text.{◌==◌ as str_eq}
use sigopt_server.Base.{
  Bool, true, false, Option, none, some, List, [], ◌∷◌, ◌++◌, map, filter, if◌then◌else◌,
}
use sigopt_server.Utils.Dict.{Dict, get, set, extend}

-- `InviteRoles.NO_ROLE`.
abbrev pub no_role : String
no_role = "uninvited"

pub record Permission : Type 0 where
  pub client : String
  pub email : String
  pub role : String

-- An invite from the API.
pub record Invite : Type 0 where
  pub email : String
  pub membership_type : String
  pub pending_permissions : List Permission

pub record Membership : Type 0 where
  pub user_email : String
  pub type_name : String

pub data Basis : Type 0 where
  invited : Invite → Basis
  member : Membership → Basis

pub record UserRelation : Type 0 where
  pub email : String
  pub basis : Basis
  pub owner : Bool
  pub permission_map : Dict Permission
  pub fresh : Bool

-- `_.indexBy`: of two items with one key the later counts.
unfoldable pub index_by : {A : Type 0} → (A → String) → List A → Dict A
unfolding extend
index_by key items = extend [] (map (λ a. (key a, a)) items)

-- `delete object[key]`.
unfoldable pub remove : {A : Type 0} → String → Dict A → Dict A
remove k [] = []
remove k ((j, a) ∷ d) = let rest = remove k d in if str_eq j k then rest else (j, a) ∷ rest

unfoldable pub create_invite_relation : Invite → UserRelation
unfolding index_by
create_invite_relation invite = record {
  email = invite.email;
  basis = invited invite;
  owner = str_eq invite.membership_type "owner";
  permission_map = index_by (λ (p : Permission). p.client) invite.pending_permissions;
  fresh = false;
}

unfoldable pub membership_relation : List Permission → Membership → UserRelation
unfolding index_by
membership_relation permissions membership =
    let owner = str_eq membership.type_name "owner" in
    record {
      email = membership.user_email;
      basis = member membership;
      owner = owner;
      permission_map =
          if owner
          then []
          else index_by (λ (p : Permission). p.client)
              (filter (λ (p : Permission). str_eq p.email membership.user_email) permissions);
      fresh = false;
    }

-- `state.userRelationMap` of the constructor.
unfoldable pub user_relation_map :
    List Invite → List Membership → List Permission → Dict UserRelation
unfolding index_by create_invite_relation membership_relation
user_relation_map invites memberships permissions =
    index_by (λ (r : UserRelation). r.email)
      (map create_invite_relation invites ++ map (membership_relation permissions) memberships)

abbrev pub modified :
    String
    → (Dict Permission → Dict Permission)
    → Option UserRelation
    → Dict UserRelation
    → Dict UserRelation
modified email updater none relations = relations
modified email updater (some r) relations =
    set email (record r { permission_map = updater r.permission_map }) relations

-- The updater of the state returns nothing, so that what it makes anew is lost: all that remains are
-- the changes to a relation that the state holds.
unfoldable pub modify_user_permissions :
    String → (Dict Permission → Dict Permission) → Dict UserRelation → Dict UserRelation
unfolding get set
modify_user_permissions email updater relations =
    modified email updater (get email relations) relations

unfoldable pub upsert_permission : Permission → Dict UserRelation → Dict UserRelation
unfolding modify_user_permissions set
upsert_permission permission relations =
    modify_user_permissions permission.email (set permission.client permission) relations

unfoldable pub delete_permission : String → String → Dict UserRelation → Dict UserRelation
unfolding modify_user_permissions remove
delete_permission client_id email relations =
    modify_user_permissions email (remove client_id) relations

-- The invite that the API has created.
unfoldable pub on_invite_create : String → Invite → Dict UserRelation → Dict UserRelation
unfolding set create_invite_relation
on_invite_create email invite relations =
    set email (record (create_invite_relation invite) { fresh = true }) relations

unfoldable pub on_uninvite : String → Dict UserRelation → Dict UserRelation
unfolding remove
on_uninvite email relations = remove email relations

-- The permission with which the API answers, or none where it refuses. Deleting, it answers with
-- nothing that is used.
unfoldable pub on_permission_change :
    String → String → String → Option Permission → Dict UserRelation → Dict UserRelation
unfolding upsert_permission delete_permission
on_permission_change client_id email role none relations = relations
on_permission_change client_id email role (some new_permission) relations =
    if str_eq role no_role
    then delete_permission client_id email relations
    else upsert_permission new_permission relations
