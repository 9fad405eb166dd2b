-- ===== src/Server/Answered.antt =====
-- web/js/server/express/app.js: what is sent, and that it is sent once.
use Prim.Native.String.{String}
use sigopt_server.Base.{
  ℕ, suc, ◌≡◌, refl, ap, ◌∙◌, Bool-cases, inl, inr, Option, none, some, List, [], ◌∷◌, ◌++◌,
  if◌then◌else◌,
}
use sigopt_server.Server.App.{app, AppRequest, handing_each, before_response, responding, run_app}
use sigopt_server.Server.Documented.{run_stack, run-run_stack}
use sigopt_server.Server.Handlers.{
  Rendering, page_kind, with_page, handle_redirects, handle_errors, needs_email_verification,
  status_of, set_standard_headers, cookie_writer, send_response,
}
use sigopt_server.Server.Stack.{
  Failure, redirecting, http, other, PageKind, Sending, standard_headers, cookie_written,
  response_sent, redirected, page_sent, logged, console_error, Ran, Handler, of_request, of_error,
  Express, always, and_next,
}

-- The first failure of the middleware, if there is one.
abbrev pub first_failure : List (Option Failure) → Option Failure
first_failure [] = none
first_failure (none ∷ os) = first_failure os
first_failure (some e ∷ os) = some e

-- The failure that is answered: that of the cookie comes before an earlier one, and the response is
-- serialized only if there is none.
abbrev pub failure_after : Option Failure → Option Failure → Option Failure → Option Failure
failure_after early (some e) serialized = some e
failure_after (some e) none serialized = some e
failure_after none none serialized = serialized

abbrev pub failure_of : AppRequest → Option Failure
failure_of r = failure_after (first_failure (before_response r)) r.cookie_error r.serialized

-- The cookie, or what is said of an earlier failure that it replaces.
abbrev pub cookie_part : ℕ → Option Failure → Option Failure → List Sending
cookie_part id early none = cookie_written id ∷ []
cookie_part id none (some e) = []
cookie_part id (some early) (some e) = console_error early ∷ []

-- Where a failure redirects to.
abbrev pub redirection : Failure → Option (ℕ × String)
redirection (redirecting r) = some (r.status, r.location)
redirection (http e) =
    if needs_email_verification e.token_status
    then some (302, "/user/info?needs_verify=1")
    else none
redirection other = none

-- A page with its status, unless it cannot be rendered, which is logged.
abbrev pub shown_page : PageKind → ℕ → Option Failure → List Sending
shown_page kind status none = page_sent kind status ∷ []
shown_page kind status (some e) = logged e ∷ []

abbrev pub answer_failure : Rendering → Failure → Option (ℕ × String) → List Sending
answer_failure rendering e (some (status, location)) = redirected status location ∷ []
answer_failure rendering e none =
    let kind = page_kind rendering e in
    logged e ∷ shown_page kind (status_of e) (rendering.rendered kind)

abbrev pub answer : AppRequest → Option Failure → List Sending
answer r none = response_sent r.status ∷ []
answer r (some e) = answer_failure r.rendering e (redirection e)

-- Responses, redirects and pages.
abbrev pub count_sent : List Sending → ℕ
count_sent [] = 0
count_sent (response_sent status ∷ sent) = suc (count_sent sent)
count_sent (redirected status location ∷ sent) = suc (count_sent sent)
count_sent (page_sent kind status ∷ sent) = suc (count_sent sent)
count_sent (standard_headers ∷ sent) = count_sent sent
count_sent (cookie_written id ∷ sent) = count_sent sent
count_sent (logged e ∷ sent) = count_sent sent
count_sent (console_error e ∷ sent) = count_sent sent

run_stack-handing_each :
    (os : List (Option Failure)) (handlers : List Handler) (early : Option Failure)
    → run_stack (handing_each os ++ handlers) early
      ≡ run_stack handlers (first_failure (early ∷ os))
unfolding run_stack
run_stack-handing_each [] handlers none = refl
run_stack-handing_each [] handlers (some e) = refl
run_stack-handing_each (none ∷ os) handlers none = run_stack-handing_each os handlers none
run_stack-handing_each (some e ∷ os) handlers none = run_stack-handing_each os handlers (some e)
run_stack-handing_each (none ∷ os) handlers (some e) = run_stack-handing_each os handlers (some e)
run_stack-handing_each (some e' ∷ os) handlers (some e) =
    run_stack-handing_each os handlers (some e)

with_page-shown_page :
    (kind : PageKind) (status : ℕ) (e : Failure) (o : Option Failure)
    → (and_next (with_page kind status e o) (run_stack [])).0 ≡ logged e ∷ shown_page kind status o
unfolding run_stack
with_page-shown_page kind status e none = refl
with_page-shown_page kind status e (some render_error) = refl

run_stack-answer :
    (r : AppRequest) (e : Failure)
    → (run_stack (of_error handle_redirects ∷ of_error (handle_errors r.rendering) ∷ []) (some e)).0
      ≡ answer r (some e)
unfolding run_stack handle_errors
run_stack-answer r (redirecting to) = refl
run_stack-answer r (http e) = elim (Bool-cases (needs_email_verification e.token_status)) [
  | inl needs ↦ rw needs refl
  | inr done ↦ rw done (
      let kind = page_kind r.rendering (http e) in
      with_page-shown_page kind (status_of (http e)) (http e) (r.rendering.rendered kind))
]
run_stack-answer r other =
    let kind = page_kind r.rendering other in
    with_page-shown_page kind (status_of other) other (r.rendering.rendered kind)

run_stack-always :
    (r : AppRequest) (early cookie serialized : Option Failure)
    → (run_stack
        (always set_standard_headers
          ++ (always (cookie_writer r.cookie_id cookie)
              ++ (of_request (send_response r.status serialized)
                  ∷ of_error handle_redirects
                  ∷ of_error (handle_errors r.rendering)
                  ∷ [])))
        early).0
      ≡ standard_headers
        ∷ (cookie_part r.cookie_id early cookie ++ answer r (failure_after early cookie serialized))
unfolding run_stack
run_stack-always r none none none = refl
run_stack-always r none none (some e) =
    ap (λ sent. standard_headers ∷ cookie_written r.cookie_id ∷ sent) (run_stack-answer r e)
run_stack-always r none (some e) serialized = ap (standard_headers ∷◌) (run_stack-answer r e)
run_stack-always r (some early) none serialized =
    ap (λ sent. standard_headers ∷ cookie_written r.cookie_id ∷ sent) (run_stack-answer r early)
run_stack-always r (some early) (some e) serialized =
    ap (λ sent. standard_headers ∷ console_error early ∷ sent) (run_stack-answer r e)

pub run_app-parts :
    (express : Express) (r : AppRequest)
    → run_app express r
      ≡ standard_headers
        ∷ (cookie_part r.cookie_id (first_failure (before_response r)) r.cookie_error
            ++ answer r (failure_of r))
unfolding run_app
run_app-parts express r =
    ap (λ (ran : Ran). ran.0)
      (run-run_stack express (app r) none
        ∙ run_stack-handing_each (before_response r) (responding r) none)
    ∙ run_stack-always r (first_failure (before_response r)) r.cookie_error r.serialized

count_sent-answer_failure :
    (rendering : Rendering) (e : Failure) (to : Option (ℕ × String))
    → ((kind : PageKind) → rendering.rendered kind ≡ none)
    → count_sent (answer_failure rendering e to) ≡ 1
count_sent-answer_failure rendering e (some (status, location)) rendered = refl
count_sent-answer_failure rendering e none rendered = rw (rendered (page_kind rendering e)) refl

count_sent-answer :
    (r : AppRequest) (o : Option Failure)
    → ((kind : PageKind) → r.rendering.rendered kind ≡ none)
    → count_sent (answer r o) ≡ 1
count_sent-answer r none rendered = refl
count_sent-answer r (some e) rendered =
    count_sent-answer_failure r.rendering e (redirection e) rendered

count_sent-cookie_part :
    (id : ℕ) (early cookie : Option Failure) (sent : List Sending)
    → count_sent (cookie_part id early cookie ++ sent) ≡ count_sent sent
count_sent-cookie_part id early none sent = refl
count_sent-cookie_part id none (some e) sent = refl
count_sent-cookie_part id (some early) (some e) sent = refl

-- A request that reaches the endpoints, where Express runs the stack as documented and every error
-- page can be rendered: the standard headers are set, the cookie is written, also after a failure,
-- unless writing it fails itself, and then one answer is sent, only once. Without a failure it is the
-- response; a redirect, and a token that needs its email verified, redirect; any other failure is
-- logged and shown on a page with its status, or 500. The first failure counts, unless the cookie
-- fails.
pub run_app-answer :
    (express : Express) (r : AppRequest)
    → ((kind : PageKind) → r.rendering.rendered kind ≡ none)
    → (run_app express r
        ≡ standard_headers
          ∷ (cookie_part r.cookie_id (first_failure (before_response r)) r.cookie_error
              ++ answer r (failure_of r)))
      × (count_sent (run_app express r) ≡ 1)
run_app-answer express r rendered =
    let early = first_failure (before_response r) in
    (
      run_app-parts express r,
      ap count_sent (run_app-parts express r)
          ∙ (count_sent-cookie_part r.cookie_id early r.cookie_error (answer r (failure_of r))
              ∙ count_sent-answer r (failure_of r) rendered),
    )
