-- ===== src/Server/Tests.antt =====
-- web/js/server/express: small requests. The first is one without a session for a page of a project.
use sigopt_server.Base.{arith, ◌≡◌, refl, true, false, none, some, [], ◌∷◌, ◌++◌}
use sigopt_server.Net.Errors.{not_found_error, prompt_for_login_error, bad_param_error}
use sigopt_server.Server.Answered.{
  cookie_part, first_failure, answer, failure_of, count_sent, run_app-answer,
}
use sigopt_server.Server.App.{AppRequest, before_response, run_app}
use sigopt_server.Server.Documented.{documented, run_stack}
use sigopt_server.Server.Handlers.{Rendering, handle_errors, make_redirect}
use sigopt_server.Server.Refused.{count_responses, run_app-refused}
use sigopt_server.Server.Stack.{
  redirecting, http, other, standard_headers, cookie_written, page_sent, login_page, error_page,
  logged, console_error,
}
use sigopt_server.Session.Csrf.{check_csrf, validate_csrf}
use sigopt_server.Session.LoginState.{LoginState, empty_frame}

abbrev rendering : Rendering
rendering = record {
  show_exception_trace = false;
  is_production = true;
  path = "/project/1";
  rendered = λ kind. none;
}

abbrev login_state : LoginState
login_state = record { own = record empty_frame { csrf_token = some 77 }; parents = [] }

abbrev logged_out_request : AppRequest
logged_out_request = record {
  prepared = none ∷ some (http prompt_for_login_error) ∷ none ∷ [];
  is_post = false;
  should_validate_csrf = some true;
  parsed = none;
  csrf_token = none;
  login_state = login_state;
  generated = none;
  status = 200;
  cookie_id = 3;
  cookie_error = none;
  serialized = none;
  rendering = rendering;
}

run_app-answer_example :
    (run_app documented logged_out_request
      ≡ standard_headers
        ∷ (cookie_part 3 (first_failure (before_response logged_out_request)) none
            ++ answer logged_out_request (failure_of logged_out_request)))
    × (count_sent (run_app documented logged_out_request) ≡ 1)
run_app-answer_example = run_app-answer documented logged_out_request (λ kind. refl)

-- The login page is shown with the status 404.
logged_out_page :
    run_app documented logged_out_request
    ≡ standard_headers
      ∷ cookie_written 3
      ∷ logged (http prompt_for_login_error)
      ∷ page_sent login_page 404
      ∷ []
unfolding run_app documented run_stack before_response handle_errors prompt_for_login_error
    not_found_error check_csrf
logged_out_page = refl

abbrev forged_request : AppRequest
forged_request = record logged_out_request { prepared = []; is_post = true; csrf_token = some 78 }

run_app-refused_example : count_responses (run_app documented forged_request) ≡ 0
run_app-refused_example =
    run_app-refused documented forged_request refl refl (λ given carried kept. ground arith)

forged_page :
    run_app documented forged_request
    ≡ standard_headers
      ∷ cookie_written 3
      ∷ logged (http (bad_param_error (some "Invalid csrf token")))
      ∷ page_sent error_page 400
      ∷ []
unfolding run_app documented run_stack before_response handle_errors check_csrf validate_csrf
    bad_param_error
forged_page = refl

-- A failure of the bucket replaces a redirect, which goes to the console.
bucket_failed :
    run_app documented (record logged_out_request {
      prepared = some (redirecting (record { status = 302; location = "/home" })) ∷ [];
      cookie_error = some other;
    })
    ≡ standard_headers
      ∷ console_error (redirecting (record { status = 302; location = "/home" }))
      ∷ logged other
      ∷ page_sent error_page 500
      ∷ []
unfolding run_app documented run_stack before_response handle_errors check_csrf
bucket_failed = refl

no_redirection : make_redirect "/home" (some 200) ≡ none
unfolding make_redirect
no_redirection = refl
