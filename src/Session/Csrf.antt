-- ===== src/Session/Csrf.antt =====
-- web/js/server/csrf.js and web/js/server/express/csrf.js: a POST must carry the csrf token of the
-- login state, unless the endpoint does its own checks.
use sigopt_server.Base.{
  ℕ, ◌≡◌, ◌≢◌, ◌↔◌, refl, Bool, true, false, not, Option, none, some, ◌==◌, get_or, if◌then◌else◌,
  arith, [],
}
use sigopt_server.Session.LoginState.{LoginState, empty_frame}

-- The two `BadParamError`s, of status 400.
pub data CsrfError : Type 0 where
  missing_csrf_token invalid_csrf_token : CsrfError

abbrev same_token : Option ℕ → ℕ → Bool
same_token none given = false
same_token (some token) given = token == given

-- `validateCsrf`: none is the call of `success`.
unfoldable pub validate_csrf : LoginState → Option ℕ → Option CsrfError
validate_csrf s none = some missing_csrf_token
validate_csrf s (some given) =
    if not (same_token s.csrf_token given) then some invalid_csrf_token else none

abbrev pub logged_out : LoginState
logged_out = record { own = empty_frame; parents = [] }

-- The middleware: the login state, and the error handed to `next`. `endpoint` is what the
-- endpoint's `shouldValidateCsrf` says, if an endpoint has been matched.
unfoldable pub check_csrf :
    Bool → Option Bool → Option ℕ → LoginState → LoginState × Option CsrfError
unfolding validate_csrf
check_csrf is_post endpoint csrf_token s =
    if not is_post
    then (s, none)
    else if get_or endpoint true
    then elim (validate_csrf s csrf_token) [ none ↦ (s, none) | some e ↦ (logged_out, some e) ]
    else (s, none)

-- A POST to an endpoint that validates goes on exactly when it carries the token of the login
-- state, and then the state is unchanged; otherwise an error is handed on and the request is logged
-- out, saved sessions and csrf token included.
pub check_csrf_iff :
    (endpoint : Option Bool) (csrf_token : Option ℕ) (s : LoginState)
    → get_or endpoint true ≡ true
    → let r = check_csrf true endpoint csrf_token s in
      ((r.1 ≡ none) ↔ ((given : ℕ) × (csrf_token ≡ some given) × (s.csrf_token ≡ some given)))
      × ((r.1 ≡ none → r.0 ≡ s) × (r.1 ≢ none → r.0 ≡ logged_out))
unfolding check_csrf
check_csrf_iff endpoint none s h =
    (((λ e. ground arith), (λ t. ground arith)), (λ e. ground arith, λ e. ground arith))
check_csrf_iff endpoint (some given) s h = (
  ((λ e. (given, refl, ground arith)), (λ t. ground arith)),
  (λ e. ground arith, λ e. ground arith),
)
