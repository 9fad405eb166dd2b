-- ===== src/Session/LoginState/Stored.antt =====
-- web/js/session/login_state.js: `toJson`, and the constructor on an object that was parsed from JSON.
-- A token or an id, opaque, is the number that stands for it.
use Prim.Native.String.{String}
use text.Mathlib.Text.{◌==◌ as str_eq}
use sigopt_server.Base.{
  ℕ, ◌≡◌, ◌∙◌, refl, ap, Bool, true, false, Option, none, some, List, [], ◌∷◌, if◌then◌else◌,
}
use sigopt_server.Session.LoginState.{Frame, LoginState}
use sigopt_server.Utils.Json.{
  Json, undefined, null, boolean, number, str, array, object, Fields, end, field, field_at,
  value_at, present,
}

abbrev pub id_json : Option ℕ → Json
id_json none = undefined
id_json (some n) = number n

abbrev pub flag_json : Option Bool → Json
flag_json none = undefined
flag_json (some b) = boolean b

abbrev pub as_id : Json → Option ℕ
as_id (number n) = some n
as_id j = none

abbrev pub as_flag : Json → Option Bool
as_flag (boolean b) = some b
as_flag j = none

-- The `_.pick` of the keys whose value is not undefined.
unfoldable pub frame_fields : Frame → Json → Fields
frame_fields f parent_state = present "apiToken" (id_json f.api_token) (
    present "clientId" (id_json f.client_id) (
      present "csrfToken" (id_json f.csrf_token) (
        present "isGuest" (flag_json f.is_guest) (
          present "organizationId" (id_json f.organization_id)
            (present "parentState" parent_state (present "userId" (id_json f.user_id) end))))))

-- `ret.parentState`, each state of the chain by its own `toJson`.
unfoldable pub parent_json : List Frame → Json
unfolding frame_fields
parent_json [] = undefined
parent_json (parent ∷ parents) = object (frame_fields parent (parent_json parents))

unfoldable pub to_json : LoginState → Fields
unfolding frame_fields parent_json
to_json s = frame_fields s.own (parent_json s.parents)

-- `state[key]` for the keys of a state but `parentState`.
unfoldable pub frame_of : Fields → Frame
unfolding field_at
frame_of state = record {
  api_token = as_id (value_at "apiToken" state);
  client_id = as_id (value_at "clientId" state);
  csrf_token = as_id (value_at "csrfToken" state);
  is_guest = as_flag (value_at "isGuest" state);
  organization_id = as_id (value_at "organizationId" state);
  user_id = as_id (value_at "userId" state);
}

unfoldable mutual
  unfolding frame_of

  -- `new LoginState(this.parentState)`, if there is one.
  pub parents_in : Json → List Frame
  parents_in (object state) = frame_of state ∷ parents_of state
  parents_in j = []

  pub parents_of : Fields → List Frame
  parents_of end = []
  parents_of (field k j fields) =
      let inner = parents_in j in
      let rest = parents_of fields in if str_eq k "parentState" then inner else rest

-- The keys of a login state in an object.
unfoldable pub login_state_of : Fields → LoginState
unfolding frame_of parents_of
login_state_of state = record { own = frame_of state; parents = parents_of state }

pub value_at-other :
    (l k : String) (j : Json) (fields : Fields)
    → str_eq l k ≡ false
    → value_at k (present l j fields) ≡ value_at k fields
unfolding field_at
value_at-other l k undefined fields h = refl
value_at-other l k null fields h = rw h refl
value_at-other l k (boolean b) fields h = rw h refl
value_at-other l k (number n) fields h = rw h refl
value_at-other l k (str s) fields h = rw h refl
value_at-other l k (array items) fields h = rw h refl
value_at-other l k (object inner) fields h = rw h refl

pub value_at-present :
    (k : String) (j : Json) (fields : Fields)
    → str_eq k k ≡ true
    → value_at k fields ≡ undefined
    → value_at k (present k j fields) ≡ j
unfolding field_at
value_at-present k undefined fields h absent = absent
value_at-present k null fields h absent = rw h refl
value_at-present k (boolean b) fields h absent = rw h refl
value_at-present k (number n) fields h absent = rw h refl
value_at-present k (str s) fields h absent = rw h refl
value_at-present k (array items) fields h absent = rw h refl
value_at-present k (object inner) fields h absent = rw h refl

parents_of-other :
    (k : String) (j : Json) (fields : Fields)
    → str_eq k "parentState" ≡ false
    → parents_of (present k j fields) ≡ parents_of fields
unfolding parents_of
parents_of-other k undefined fields h = refl
parents_of-other k null fields h = rw h refl
parents_of-other k (boolean b) fields h = rw h refl
parents_of-other k (number n) fields h = rw h refl
parents_of-other k (str s) fields h = rw h refl
parents_of-other k (array items) fields h = rw h refl
parents_of-other k (object inner) fields h = rw h refl

parents_of-present :
    (j : Json) (fields : Fields)
    → parents_of fields ≡ []
    → parents_of (present "parentState" j fields) ≡ parents_in j
unfolding parents_of
parents_of-present undefined fields absent = absent
parents_of-present null fields absent = refl
parents_of-present (boolean b) fields absent = refl
parents_of-present (number n) fields absent = refl
parents_of-present (str s) fields absent = refl
parents_of-present (array items) fields absent = refl
parents_of-present (object inner) fields absent = refl

pub as_id-id_json : (o : Option ℕ) → as_id (id_json o) ≡ o
as_id-id_json none = refl
as_id-id_json (some n) = refl

as_flag-flag_json : (o : Option Bool) → as_flag (flag_json o) ≡ o
as_flag-flag_json none = refl
as_flag-flag_json (some b) = refl

frame-eq :
    {f h : Frame}
    → f.api_token ≡ h.api_token
    → f.client_id ≡ h.client_id
    → f.csrf_token ≡ h.csrf_token
    → f.is_guest ≡ h.is_guest
    → f.organization_id ≡ h.organization_id
    → f.user_id ≡ h.user_id
    → f ≡ h
frame-eq a c t g o u i = record {
  api_token = a i;
  client_id = c i;
  csrf_token = t i;
  is_guest = g i;
  organization_id = o i;
  user_id = u i;
}

module _ (a c t g o p u : Json) where
  abbrev from_user : Fields
  from_user = present "userId" u end

  abbrev from_parent : Fields
  from_parent = present "parentState" p from_user

  abbrev from_organization : Fields
  from_organization = present "organizationId" o from_parent

  abbrev from_guest : Fields
  from_guest = present "isGuest" g from_organization

  abbrev from_csrf : Fields
  from_csrf = present "csrfToken" t from_guest

  abbrev from_client : Fields
  from_client = present "clientId" c from_csrf

  abbrev all : Fields
  all = present "apiToken" a from_client

  value_at-api_token : value_at "apiToken" all ≡ a
  unfolding field_at
  value_at-api_token = value_at-present "apiToken" a from_client refl (
      value_at-other "clientId" "apiToken" c from_csrf refl
      ∙ value_at-other "csrfToken" "apiToken" t from_guest refl
      ∙ value_at-other "isGuest" "apiToken" g from_organization refl
      ∙ value_at-other "organizationId" "apiToken" o from_parent refl
      ∙ value_at-other "parentState" "apiToken" p from_user refl
      ∙ value_at-other "userId" "apiToken" u end refl)

  value_at-client_id : value_at "clientId" all ≡ c
  unfolding field_at
  value_at-client_id =
      value_at-other "apiToken" "clientId" a from_client refl
      ∙ value_at-present "clientId" c from_csrf refl (
          value_at-other "csrfToken" "clientId" t from_guest refl
          ∙ value_at-other "isGuest" "clientId" g from_organization refl
          ∙ value_at-other "organizationId" "clientId" o from_parent refl
          ∙ value_at-other "parentState" "clientId" p from_user refl
          ∙ value_at-other "userId" "clientId" u end refl)

  value_at-csrf_token : value_at "csrfToken" all ≡ t
  unfolding field_at
  value_at-csrf_token =
      value_at-other "apiToken" "csrfToken" a from_client refl
      ∙ value_at-other "clientId" "csrfToken" c from_csrf refl
      ∙ value_at-present "csrfToken" t from_guest refl (
          value_at-other "isGuest" "csrfToken" g from_organization refl
          ∙ value_at-other "organizationId" "csrfToken" o from_parent refl
          ∙ value_at-other "parentState" "csrfToken" p from_user refl
          ∙ value_at-other "userId" "csrfToken" u end refl)

  value_at-is_guest : value_at "isGuest" all ≡ g
  unfolding field_at
  value_at-is_guest =
      value_at-other "apiToken" "isGuest" a from_client refl
      ∙ value_at-other "clientId" "isGuest" c from_csrf refl
      ∙ value_at-other "csrfToken" "isGuest" t from_guest refl
      ∙ value_at-present "isGuest" g from_organization refl (
          value_at-other "organizationId" "isGuest" o from_parent refl
          ∙ value_at-other "parentState" "isGuest" p from_user refl
          ∙ value_at-other "userId" "isGuest" u end refl)

  value_at-organization_id : value_at "organizationId" all ≡ o
  unfolding field_at
  value_at-organization_id =
      value_at-other "apiToken" "organizationId" a from_client refl
      ∙ value_at-other "clientId" "organizationId" c from_csrf refl
      ∙ value_at-other "csrfToken" "organizationId" t from_guest refl
      ∙ value_at-other "isGuest" "organizationId" g from_organization refl
      ∙ value_at-present "organizationId" o from_parent refl (
          value_at-other "parentState" "organizationId" p from_user refl
          ∙ value_at-other "userId" "organizationId" u end refl)

  value_at-user_id : value_at "userId" all ≡ u
  unfolding field_at
  value_at-user_id =
      value_at-other "apiToken" "userId" a from_client refl
      ∙ value_at-other "clientId" "userId" c from_csrf refl
      ∙ value_at-other "csrfToken" "userId" t from_guest refl
      ∙ value_at-other "isGuest" "userId" g from_organization refl
      ∙ value_at-other "organizationId" "userId" o from_parent refl
      ∙ value_at-other "parentState" "userId" p from_user refl
      ∙ value_at-present "userId" u end refl (refl)

  parents_of-all : parents_of all ≡ parents_in p
  unfolding parents_of
  parents_of-all =
      parents_of-other "apiToken" a from_client refl
      ∙ parents_of-other "clientId" c from_csrf refl
      ∙ parents_of-other "csrfToken" t from_guest refl
      ∙ parents_of-other "isGuest" g from_organization refl
      ∙ parents_of-other "organizationId" o from_parent refl
      ∙ parents_of-present p from_user (parents_of-other "userId" u end refl)

module _ (f : Frame) (p : Json) where
  frame_of-frame_fields : frame_of (frame_fields f p) ≡ f
  unfolding frame_of frame_fields
  frame_of-frame_fields =
      let a = id_json f.api_token in
      let c = id_json f.client_id in
      let t = id_json f.csrf_token in
      let g = flag_json f.is_guest in
      let o = id_json f.organization_id in
      let u = id_json f.user_id in
      frame-eq (ap as_id (value_at-api_token a c t g o p u) ∙ as_id-id_json f.api_token)
        (ap as_id (value_at-client_id a c t g o p u) ∙ as_id-id_json f.client_id)
        (ap as_id (value_at-csrf_token a c t g o p u) ∙ as_id-id_json f.csrf_token)
        (ap as_flag (value_at-is_guest a c t g o p u) ∙ as_flag-flag_json f.is_guest)
        (ap as_id (value_at-organization_id a c t g o p u) ∙ as_id-id_json f.organization_id)
        (ap as_id (value_at-user_id a c t g o p u) ∙ as_id-id_json f.user_id)

  parents_of-frame_fields : parents_of (frame_fields f p) ≡ parents_in p
  unfolding frame_fields
  parents_of-frame_fields =
      parents_of-all (id_json f.api_token) (id_json f.client_id) (id_json f.csrf_token)
        (flag_json f.is_guest) (id_json f.organization_id) p (id_json f.user_id)

parents_in-parent_json : (parents : List Frame) → parents_in (parent_json parents) ≡ parents
unfolding parents_in parent_json
parents_in-parent_json [] = refl
parents_in-parent_json (parent ∷ parents) =
    ap (λ f. f ∷ parents_of (frame_fields parent (parent_json parents)))
      (frame_of-frame_fields parent (parent_json parents))
    ∙ ap (λ fs. parent ∷ fs)
        (parents_of-frame_fields parent (parent_json parents) ∙ parents_in-parent_json parents)

-- A login state that was written is read as it was.
pub login_state_of-to_json : (s : LoginState) → login_state_of (to_json s) ≡ s
unfolding login_state_of to_json
login_state_of-to_json s =
    ap (λ f. record { own = f; parents = parents_of (frame_fields s.own (parent_json s.parents)) })
      (frame_of-frame_fields s.own (parent_json s.parents))
    ∙ ap (λ fs. record { own = s.own; parents = fs })
        (parents_of-frame_fields s.own (parent_json s.parents) ∙ parents_in-parent_json s.parents)
