-- ===== src/Server/Refused.antt =====
-- web/js/server/express/app.js: a POST without the csrf token gets no response of its endpoint.
use Prim.Native.String.{String}
use sigopt_server.Base.{
  ℕ, suc, ◌≡◌, ◌≢◌, refl, ap, ◌∙◌, true, Option, none, some, is_some, List, [], ◌∷◌, ◌++◌,
}
use sigopt_server.Server.Answered.{
  first_failure, failure_after, failure_of, cookie_part, redirection, shown_page, answer_failure,
  answer, run_app-parts,
}
use sigopt_server.Server.App.{AppRequest, before_response, csrf_failure, run_app}
use sigopt_server.Server.Handlers.{Rendering, page_kind, status_of}
use sigopt_server.Server.Stack.{
  Failure, PageKind, Sending, Express, standard_headers, cookie_written, response_sent, redirected,
  page_sent, logged, console_error,
}
use sigopt_server.Session.Csrf.{
  CsrfError, missing_csrf_token, invalid_csrf_token, check_csrf, check_csrf_iff,
}

abbrev pub count_responses : List Sending → ℕ
count_responses [] = 0
count_responses (response_sent status ∷ sent) = suc (count_responses sent)
count_responses (redirected status location ∷ sent) = count_responses sent
count_responses (page_sent kind status ∷ sent) = count_responses sent
count_responses (standard_headers ∷ sent) = count_responses sent
count_responses (cookie_written id ∷ sent) = count_responses sent
count_responses (logged e ∷ sent) = count_responses sent
count_responses (console_error e ∷ sent) = count_responses sent

count_responses-cookie_part :
    (id : ℕ) (early cookie : Option Failure) (sent : List Sending)
    → count_responses (cookie_part id early cookie ++ sent) ≡ count_responses sent
count_responses-cookie_part id early none sent = refl
count_responses-cookie_part id none (some e) sent = refl
count_responses-cookie_part id (some early) (some e) sent = refl

count_responses-shown_page :
    (kind : PageKind) (status : ℕ) (o : Option Failure)
    → count_responses (shown_page kind status o) ≡ 0
count_responses-shown_page kind status none = refl
count_responses-shown_page kind status (some e) = refl

count_responses-answer_failure :
    (rendering : Rendering) (e : Failure) (to : Option (ℕ × String))
    → count_responses (answer_failure rendering e to) ≡ 0
count_responses-answer_failure rendering e (some (status, location)) = refl
count_responses-answer_failure rendering e none =
    let kind = page_kind rendering e in
    count_responses-shown_page kind (status_of e) (rendering.rendered kind)

-- A failure before the response is answered as one, whatever comes of the cookie.
count_responses-failed :
    (r : AppRequest) (early cookie serialized : Option Failure)
    → is_some early ≡ true
    → count_responses (answer r (failure_after early cookie serialized)) ≡ 0
count_responses-failed r none cookie serialized h = cc
count_responses-failed r (some early) none serialized h =
    count_responses-answer_failure r.rendering early (redirection early)
count_responses-failed r (some early) (some e) serialized h =
    count_responses-answer_failure r.rendering e (redirection e)

first_failure-append :
    (os ps : List (Option Failure))
    → is_some (first_failure ps) ≡ true
    → is_some (first_failure (os ++ ps)) ≡ true
first_failure-append [] ps h = h
first_failure-append (none ∷ os) ps h = first_failure-append os ps h
first_failure-append (some e ∷ os) ps h = refl

csrf_failure-found :
    (o : Option CsrfError) (ps : List (Option Failure))
    → o ≢ none
    → is_some (first_failure (csrf_failure o ∷ ps)) ≡ true
csrf_failure-found none ps h = absurd (h refl)
csrf_failure-found (some missing_csrf_token) ps h = refl
csrf_failure-found (some invalid_csrf_token) ps h = refl

before_response-failed :
    (r : AppRequest)
    → r.is_post ≡ true
    → r.should_validate_csrf ≡ some true
    → ((given : ℕ) → r.csrf_token ≡ some given → r.login_state.csrf_token ≢ some given)
    → is_some (first_failure (before_response r)) ≡ true
unfolding before_response
before_response-failed r post validates differs =
    let checked = check_csrf true (some true) r.csrf_token r.login_state in
    let refused : checked.1 ≢ none = λ accepted.
      let (given, carried, kept) =
        (check_csrf_iff (some true) r.csrf_token r.login_state refl).0.0 accepted in
      differs given carried kept in
    let found = csrf_failure-found checked.1 (r.generated ∷ []) refused in
    rw (post, validates)
      (first_failure-append r.prepared (none ∷ r.parsed ∷ csrf_failure checked.1 ∷ r.generated ∷ [])
        (first_failure-append (none ∷ r.parsed ∷ []) (csrf_failure checked.1 ∷ r.generated ∷ [])
          found))

-- Where Express runs the stack as documented: a POST to an endpoint that validates, which does not
-- carry the csrf token of the login state, is never answered by the endpoint's response, whatever
-- else fails.
pub run_app-refused :
    (express : Express) (r : AppRequest)
    → r.is_post ≡ true
    → r.should_validate_csrf ≡ some true
    → ((given : ℕ) → r.csrf_token ≡ some given → r.login_state.csrf_token ≢ some given)
    → count_responses (run_app express r) ≡ 0
run_app-refused express r post validates differs =
    let early = first_failure (before_response r) in
    ap count_responses (run_app-parts express r)
    ∙ (count_responses-cookie_part r.cookie_id early r.cookie_error (answer r (failure_of r))
        ∙ count_responses-failed r early r.cookie_error r.serialized
            (before_response-failed r post validates differs))
