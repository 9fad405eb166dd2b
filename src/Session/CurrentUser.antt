-- ===== src/Session/CurrentUser.antt =====
-- web/js/server/express/current_user.js and token.js: finding out who the request acts as. A
-- session that the API refuses is popped, down to the first parent that it accepts. The API is an
-- argument: what it answers for the token and the user of a state. An error is its status.
pub mod Fallback
use sigopt_server.Base.{
  ℕ, Bool, true, false, not, ◌&&◌, ◌||◌, Option, none, some, List, [], ◌∷◌, is_some, ◌==◌,
  if◌then◌else◌,
}
use sigopt_server.Session.LoginState.{
  Frame, LoginState, set_from, logged_out_copy, pop_login_state, or_else,
}

pub data Answer (U : Type 0) : Type 0 where
  found : U → Answer U
  failed : ℕ → Answer U

-- `_.contains([401, 403, 404], err.status)`.
abbrev pub is_forbidden : ℕ → Bool
is_forbidden status = status == 401 || (status == 403 || status == 404)

-- What a middleware hands to `next`: nothing, or an error by its status.
pub data Next : Type 0 where
  proceed : Next
  fail : ℕ → Next

-- `popLoginState` of a state whose parents are `parent ∷ parents`.
abbrev pub popped : Frame → Frame → Frame
popped own parent = record parent { csrf_token = or_else parent.csrf_token own.csrf_token }

module _ {U : Type 0} (api : Frame → Answer U) where
  -- `getUserInfoEvenIfSessionExpired`: the login state in the end, and the answer.
  pub get_user_info : Frame → List Frame → LoginState × Answer U
  get_user_info own [] = (record { own = own; parents = [] }, api own)
  get_user_info own (parent ∷ parents) =
      let fallback = get_user_info (popped own parent) parents in
      elim (api own) [
        | found u ↦ (record { own = own; parents = parent ∷ parents }, found u)
        | failed status ↦
            if is_forbidden status
            then fallback
            else (record { own = own; parents = parent ∷ parents }, failed status)
      ]

  abbrev pub log_out : LoginState → LoginState
  log_out s = set_from s (logged_out_copy s)

  -- The two handlers behind it: the state, `req.currentUser` and what `next` gets.
  pub after_answer : LoginState × Answer U → LoginState × Option U × Next
  after_answer (s, found u) = (s, some u, proceed)
  after_answer (s, failed status) =
      if is_forbidden status then (log_out s, none, proceed) else (s, none, fail status)

  -- `setCurrentUser`; `is_static` says that the path starts with `/static/`.
  pub set_current_user : Bool → LoginState → LoginState × Option U × Next
  set_current_user is_static s =
      if is_some s.user_id && not is_static
      then after_answer (get_user_info s.own s.parents)
      else (s, none, proceed)

  -- `setTokenDetail`: as above, but a state with no token has no detail.
  pub set_token_detail : Frame → List Frame → LoginState × Answer (Option U)
  set_token_detail own [] = (
    record { own = own; parents = [] },
    (if is_some own.api_token
        then elim (api own) [ found u ↦ found (some u) | failed status ↦ failed status ]
        else found none),
  )
  set_token_detail own (parent ∷ parents) =
      let fallback = set_token_detail (popped own parent) parents in
      if is_some own.api_token
      then elim (api own) [
        | found u ↦ (record { own = own; parents = parent ∷ parents }, found (some u))
        | failed status ↦
            if is_forbidden status
            then fallback
            else (record { own = own; parents = parent ∷ parents }, failed status)
      ]
      else (record { own = own; parents = parent ∷ parents }, found none)

  pub after_detail : LoginState × Answer (Option U) → LoginState × Option U × Next
  after_detail (s, found detail) = (s, detail, proceed)
  after_detail (s, failed status) =
      if is_forbidden status then (log_out s, none, proceed) else (s, none, fail status)

  -- `setApiTokenDetail`.
  pub set_api_token_detail : LoginState → LoginState × Option U × Next
  set_api_token_detail s = after_detail (set_token_detail s.own s.parents)
