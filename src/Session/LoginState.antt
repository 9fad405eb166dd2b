-- ===== src/Session/LoginState.antt =====
-- web/js/session/login_state.js, set.js and pop.js: who the request acts as. Tokens and ids are
-- opaque, truthy values; `null` and `undefined` are both none. The chain of `parentState` is a
-- list, nearest parent first.
pub mod Stack
pub mod Stored
use sigopt_server.Base.{
  ℕ, Bool, true, false, not, ◌&&◌, Option, none, some, List, [], ◌∷◌, is_some, get_or,
  if◌then◌else◌,
}

-- The keys of a state but `parentState`.
pub record Frame : Type 0 where
  pub api_token : Option ℕ
  pub client_id : Option ℕ
  pub csrf_token : Option ℕ
  pub is_guest : Option Bool
  pub organization_id : Option ℕ
  pub user_id : Option ℕ

pub record LoginState : Type 0 where
  pub own : Frame
  pub open own use *
  pub parents : List Frame

abbrev pub empty_frame : Frame
empty_frame = record {
  api_token = none;
  client_id = none;
  csrf_token = none;
  is_guest = none;
  organization_id = none;
  user_id = none;
}

-- `a || b`.
abbrev pub or_else : Option ℕ → Option ℕ → Option ℕ
or_else none b = b
or_else (some a) b = some a

-- `this.setFrom(state)`: the csrf token is kept when the new state has none.
unfoldable pub set_from : LoginState → LoginState → LoginState
set_from this state = record {
  own = record state.own { csrf_token = or_else state.csrf_token this.csrf_token };
  parents = state.parents;
}

-- `new LoginState(state)`.
unfoldable pub new_login_state : LoginState → LoginState
unfolding set_from
new_login_state state = set_from (record { own = empty_frame; parents = [] }) state

unfoldable pub logged_out_copy : LoginState → LoginState
unfolding new_login_state
logged_out_copy this =
    new_login_state
      (record { own = record empty_frame { csrf_token = this.csrf_token }; parents = [] })

-- `popLoginState`, and the token that it gives to the API requestor. It must not be called on a
-- state with no parent, where reading a key of `null` throws: none.
unfoldable pub pop_login_state : LoginState → Option (LoginState × Option ℕ)
unfolding set_from
pop_login_state s = elim s.parents [
  | [] ↦ none
  | parent ∷ parents ↦
      let s' = set_from s (record { own = parent; parents = parents }) in some (s', s'.api_token)
]

unfoldable pub push_parent_state : LoginState → Bool → Bool → LoginState
unfolding new_login_state
push_parent_state s preserve_as_parent_state current_state_is_guest =
    if preserve_as_parent_state && (is_some s.api_token && not current_state_is_guest)
    then (let copy = new_login_state s in record s { parents = copy.own ∷ copy.parents })
    else s

pub record Client : Type 0 where
  pub id : ℕ
  pub organization : ℕ

pub record Session : Type 0 where
  pub token : ℕ
  pub client : Option Client
  pub user : Option ℕ

abbrev pub client_key : (Client → ℕ) → Option Client → Option ℕ
client_key key none = none
client_key key (some c) = some (key c)

unfoldable pub set_login_state_from_session : LoginState → Session → Bool → LoginState
unfolding push_parent_state
set_login_state_from_session s session preserve_as_parent_state =
    let pushed = push_parent_state s preserve_as_parent_state false in
    record pushed {
      own = record pushed.own {
        api_token = some session.token;
        client_id = client_key (λ c. c.id) session.client;
        organization_id = client_key (λ c. c.organization) session.client;
        user_id = session.user;
      };
    }

pub record ApiToken : Type 0 where
  pub token : ℕ
  pub client : Option ℕ
  pub organization : Option ℕ
  pub user : Option ℕ
  pub is_guest_type : Bool

-- `currentApiToken && currentApiToken.token_type === "guest"`.
abbrev pub guest_token : Option ApiToken → Bool
guest_token none = false
guest_token (some t) = t.is_guest_type

unfoldable pub set_login_state_from_token :
    LoginState → ApiToken → Option ApiToken → Bool → LoginState
unfolding push_parent_state
set_login_state_from_token s new_api_token current_api_token preserve_as_parent_state =
    let pushed = push_parent_state s preserve_as_parent_state (guest_token current_api_token) in
    record pushed {
      own = record pushed.own {
        api_token = some new_api_token.token;
        client_id = new_api_token.client;
        organization_id = new_api_token.organization;
        user_id = new_api_token.user;
      };
    }
