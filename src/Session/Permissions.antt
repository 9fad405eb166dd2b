-- ===== src/Session/Permissions.antt =====
-- web/js/server/express/check_login_state.js: the team that the request acts for must be one of
-- the user's. A permission is its client; the error texts are kept apart by their kind.
use sigopt_server.Base.{
  ℕ, Option-cases, subst, sym, ap, ◌∙◌, ◌≡◌, refl, inl, inr, Bool, true, false, Option, none, some,
  List, [], ◌∷◌, any, ◌&&◌, is_some, ◌==◌, ==_iff, if◌then◌else◌, arith, Bool-cases,
}
use mathlib.Core.Bool
use sigopt_server.Session.LoginState.{LoginState, Client}

-- `req.error`: null, the text about the team removed (it names the new team), or the one about
-- being in no team.
pub data LoginError : Type 0 where
  no_error no_team : LoginError
  removed_from_team : Client → LoginError

abbrev pub has_id : ℕ → List Client → Bool
has_id id permissions = any (λ c. c.id == id) permissions

-- `_.find` by the organization.
pub find_in_organization : ℕ → List Client → Option Client
find_in_organization organization [] = none
find_in_organization organization (c ∷ permissions) =
    if c.organization == organization then some c else find_in_organization organization permissions

-- `isValidClientId`.
pub is_valid_client_id : LoginState → List Client → Bool
is_valid_client_id s permissions = elim s.client_id [
  | none ↦ false
  | some id ↦ has_id id permissions
]

-- `permission`, of permissions that are `first ∷ rest`.
pub default_client : Option ℕ → Client → List Client → Client
default_client none first rest = first
default_client (some organization) first rest =
    elim (find_in_organization organization (first ∷ rest)) [ some c ↦ c | none ↦ first ]

abbrev act_for : LoginState → Option Client → LoginState
act_for s none = record s { own = record s.own { client_id = none; organization_id = none } }
act_for s (some c) = record s {
  own = record s.own { client_id = some c.id; organization_id = some c.organization };
}

-- The middleware: the login state, and `req.error`.
pub check_login_state : LoginState → List Client → LoginState × LoginError
unfolding is_valid_client_id default_client find_in_organization
check_login_state s [] = (act_for s none, no_team)
check_login_state s (first ∷ rest) =
    if is_valid_client_id s (first ∷ rest)
    then (s, no_error)
    else (let client = default_client s.organization_id first rest in
        (
          act_for s (some client),
          (if is_some s.client_id then removed_from_team client else no_error),
        ))

abbrev pub is_client : Client → List Client → Bool
is_client c permissions =
    any (λ d. (d.id == c.id) && (d.organization == c.organization)) permissions

is_client-first : (first : Client) (rest : List Client) → is_client first (first ∷ rest) ≡ true
is_client-first first rest =
    ground (arith, ==_iff first.id first.id, ==_iff first.organization first.organization)

find_in_organization-listed :
    (organization : ℕ) (permissions : List Client) (c : Client)
    → find_in_organization organization permissions ≡ some c
    → (is_client c permissions ≡ true) × (c.organization ≡ organization)
unfolding find_in_organization
find_in_organization-listed organization [] c e = cc
find_in_organization-listed organization (d ∷ permissions) c e = ground (
  arith,
  find_in_organization-listed organization permissions c,
  ==_iff d.organization organization,
  ==_iff c.id c.id,
  ==_iff c.organization c.organization,
)

find_in_organization-none :
    (organization : ℕ) (permissions : List Client)
    → find_in_organization organization permissions ≡ none
    → any (λ c. c.organization == organization) permissions ≡ false
unfolding find_in_organization
find_in_organization-none organization [] e = refl
find_in_organization-none organization (d ∷ permissions) e =
    ground (arith, find_in_organization-none organization permissions)

valid-listed :
    (s : LoginState) (permissions : List Client)
    → is_valid_client_id s permissions ≡ true
    → (id : ℕ) × (s.client_id ≡ some id) × (has_id id permissions ≡ true)
unfolding is_valid_client_id
valid-listed s permissions e = elim (Option-cases s.client_id) [
  | inl missing ↦ absurd (Bool.false≢true (rw (missing, is_valid_client_id) at e))
  | inr (id, given) ↦ (id, given, rw (given, is_valid_client_id) at e)
]

default_client-found :
    (o : ℕ) (first c : Client) (rest : List Client)
    → find_in_organization o (first ∷ rest) ≡ some c
    → default_client (some o) first rest ≡ c
unfolding default_client
default_client-found o first c rest e = rw (e, default_client)

default_client-missing :
    (o : ℕ) (first : Client) (rest : List Client)
    → find_in_organization o (first ∷ rest) ≡ none
    → default_client (some o) first rest ≡ first
unfolding default_client
default_client-missing o first rest e = rw (e, default_client)

default_client-listed :
    (o : Option ℕ) (first : Client) (rest : List Client)
    → is_client (default_client o first rest) (first ∷ rest) ≡ true
unfolding default_client
default_client-listed none first rest = is_client-first first rest
default_client-listed (some o) first rest =
    elim (Option-cases (find_in_organization o (first ∷ rest))) [
      | inl missing ↦
          subst (λ c. is_client c (first ∷ rest) ≡ true)
            (sym (default_client-missing o first rest missing)) (is_client-first first rest)
      | inr (c, given) ↦
          subst (λ c. is_client c (first ∷ rest) ≡ true)
            (sym (default_client-found o first c rest given))
            (find_in_organization-listed o (first ∷ rest) c given).0
    ]

default_client-organization :
    (o : ℕ) (first : Client) (rest : List Client)
    → any (λ c. c.organization == o) (first ∷ rest) ≡ true
    → (default_client (some o) first rest).organization ≡ o
default_client-organization o first rest h =
    elim (Option-cases (find_in_organization o (first ∷ rest))) [
      | inl missing ↦
          absurd (Bool.false≢true (sym (find_in_organization-none o (first ∷ rest) missing) ∙ h))
      | inr (c, given) ↦
          ap (λ d. d.organization) (default_client-found o first c rest given)
          ∙ (find_in_organization-listed o (first ∷ rest) c given).1
    ]

valid_when :
    (s : LoginState) (permissions : List Client) (id : ℕ)
    → s.client_id ≡ some id
    → has_id id permissions ≡ true
    → is_valid_client_id s permissions ≡ true
unfolding is_valid_client_id
valid_when s permissions id given listed = rw given listed

-- What the request is answered with when it acts for a client instead of the one asked for.
abbrev pub told_of : LoginState → Client → LoginError
told_of s client = if is_some s.client_id then removed_from_team client else no_error

-- The request goes on for another team: one of the user's, id and organization of the same client,
-- in the organization of the login state if the user has a team there, with an error that names the
-- team if another one was asked for, and all else of the login state as it was.
pub record ActsForAnother (s : LoginState) (permissions : List Client) (r : LoginState × LoginError)
    : Type 0 where
  pub client : Client
  pub listed : is_client client permissions ≡ true
  pub same_organization :
      (organization : ℕ)
      → s.organization_id ≡ some organization
      → any (λ c. c.organization == organization) permissions ≡ true
      → client.organization ≡ organization
  pub acts : r.0 ≡ record s {
    own = record s.own { client_id = some client.id; organization_id = some client.organization };
  }
  pub told : r.1 ≡ told_of s client

-- The request acts for a team of the user's.
pub record ActsForTeam (s : LoginState) (permissions : List Client) (r : LoginState × LoginError)
    : Type 0 where
  pub kept : (id : ℕ) → s.client_id ≡ some id → has_id id permissions ≡ true → r ≡ (s, no_error)
  pub replaced :
      ((id : ℕ) → s.client_id ≡ some id → has_id id permissions ≡ false)
      → ActsForAnother s permissions r

-- A user with a team goes on. With a team of theirs in the login state, the state is unchanged and
-- there is no error. Otherwise the request acts for another team: client and organization of the
-- state become those of one client of the user's, which is in the organization of the state when
-- the user has a team there, the rest of the state is unchanged, and there is an error, which names
-- this client, exactly if the state had a team.
pub check_login_state-ActsForTeam :
    (s : LoginState) (first : Client) (rest : List Client)
    → ActsForTeam s (first ∷ rest) (check_login_state s (first ∷ rest))
unfolding check_login_state
check_login_state-ActsForTeam s first rest =
    elim (Bool-cases (is_valid_client_id s (first ∷ rest))) [
      | inl valid ↦ rw valid (record {
        kept = λ id given listed. refl;
        replaced = λ other.
            let (id, given, listed) = valid-listed s (first ∷ rest) valid in
            absurd (Bool.false≢true (sym (other id given) ∙ listed));
      })
      | inr other ↦ rw other (record {
        kept = λ id given listed.
            absurd (Bool.false≢true (sym other ∙ valid_when s (first ∷ rest) id given listed));
        replaced = λ e. record {
          client = default_client s.organization_id first rest;
          listed = default_client-listed s.organization_id first rest;
          same_organization = λ o given h.
              ap (λ asked. (default_client asked first rest).organization) given
              ∙ default_client-organization o first rest h;
          acts = refl;
          told = refl;
        };
      })
    ]

-- A user with no team acts for none, and is told.
pub check_login_state-no_team :
    (s : LoginState)
    → let r = check_login_state s [] in
      (r.0.client_id ≡ none)
      × (r.0.organization_id ≡ none)
      × (r.1 ≡ no_team)
      × (r.0.user_id ≡ s.user_id)
unfolding check_login_state
check_login_state-no_team s = (refl, refl, refl, refl)
