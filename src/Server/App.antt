-- ===== src/Server/App.antt =====
-- web/js/server/express/app.js: the middleware in the order in which makeApp uses it. What the
-- middleware before the endpoint hands to `next`, and what the endpoint's getParams and render make, are
-- arguments. The requests that are answered before it (health, static files, documentation) are left out.
use Prim.Native.String.{String}
use sigopt_server.Base.{ℕ, Bool, false, Option, none, some, List, [], ◌∷◌, ◌++◌}
use sigopt_server.Net.Errors.{not_found_error, bad_param_error}
use sigopt_server.Server.Handlers.{
  set_standard_headers, cookie_writer, send_response, handle_redirects, handle_errors, Rendering,
}
use sigopt_server.Server.Stack.{
  Failure, http, Sending, pass, fail, Ran, Handler, of_request, of_error, Express, always,
}
use sigopt_server.Session.Csrf.{CsrfError, missing_csrf_token, invalid_csrf_token, check_csrf}
use sigopt_server.Session.LoginState.{LoginState}

pub record AppRequest : Type 0 where
  pub prepared : List (Option Failure)
  pub is_post : Bool
  pub should_validate_csrf : Option Bool
  pub parsed : Option Failure
  pub csrf_token : Option ℕ
  pub login_state : LoginState
  pub generated : Option Failure
  pub status : ℕ
  pub cookie_id : ℕ
  pub cookie_error : Option Failure
  pub serialized : Option Failure
  pub rendering : Rendering

-- What a handler that sends nothing hands to `next`.
abbrev pub handing : Option Failure → Ran
handing none = ([], pass)
handing (some e) = ([], fail e)

abbrev pub handing_each : List (Option Failure) → List Handler
handing_each [] = []
handing_each (o ∷ os) = of_request (handing o) ∷ handing_each os

-- The 404 if no endpoint matches.
abbrev pub endpoint_failure : String → Option Bool → Option Failure
endpoint_failure path none = some (http (not_found_error (some path) none false))
endpoint_failure path (some endpoint) = none

abbrev pub csrf_failure : Option CsrfError → Option Failure
csrf_failure none = none
csrf_failure (some missing_csrf_token) = some (http (bad_param_error (some "Missing csrf token")))
csrf_failure (some invalid_csrf_token) = some (http (bad_param_error (some "Invalid csrf token")))

-- Up to the response: the middleware that only prepares it.
unfoldable pub before_response : AppRequest → List (Option Failure)
before_response r =
    r.prepared
    ++ (endpoint_failure r.rendering.path r.should_validate_csrf
        ∷ r.parsed
        ∷ csrf_failure (check_csrf r.is_post r.should_validate_csrf r.csrf_token r.login_state).1
        ∷ r.generated
        ∷ [])

abbrev pub responding : AppRequest → List Handler
responding r =
    always set_standard_headers
    ++ (always (cookie_writer r.cookie_id r.cookie_error)
        ++ (of_request (send_response r.status r.serialized)
            ∷ of_error handle_redirects
            ∷ of_error (handle_errors r.rendering)
            ∷ []))

abbrev pub app : AppRequest → List Handler
app r = handing_each (before_response r) ++ responding r

unfoldable pub run_app : Express → AppRequest → List Sending
run_app express r = (express.run (app r) none).0
