-- ===== src/Server/Handlers.antt =====
-- web/js/server/express: headers.js, the writer of cookie.js, response.js, redirect.js and error.js
-- as handlers. Whether the bucket takes the session, whether a response can be serialized and whether a
-- page can be rendered are arguments: none is success.
use Prim.Native.String.{String}
use text.Mathlib.Text.{◌==◌ as str_eq}
use sigopt_server.Base.{
  ℕ, zero, suc, ltb, Bool, false, not, ◌&&◌, ◌||◌, Option, none, some, [], ◌∷◌, if◌then◌else◌,
}
use sigopt_server.Server.Stack.{
  Redirect, Failure, redirecting, http, other, PageKind, login_page, error_page, stack_trace,
  standard_headers, cookie_written, response_sent, redirected, page_sent, logged, pass, fail, ended,
  Ran,
}

-- `new Redirect(location, code)`, which throws on a code that is no redirection.
unfoldable pub make_redirect : String → Option ℕ → Option Redirect
make_redirect location none = some (record { status = 302; location = location })
make_redirect location (some code) =
    if ltb code 300 || ltb 399 code
    then none
    else some (record { status = code; location = location })

abbrev pub set_standard_headers : Ran
set_standard_headers = (standard_headers ∷ [], pass)

abbrev pub cookie_writer : ℕ → Option Failure → Ran
cookie_writer id none = (cookie_written id ∷ [], pass)
cookie_writer id (some e) = ([], fail e)

abbrev pub send_response : ℕ → Option Failure → Ran
send_response status none = (response_sent status ∷ [], pass)
send_response status (some e) = ([], fail e)

abbrev pub needs_email_verification : Option String → Bool
needs_email_verification none = false
needs_email_verification (some status) = str_eq status "needs_email_verification"

abbrev pub handle_redirects : Failure → Ran
handle_redirects (redirecting r) = (redirected r.status r.location ∷ [], ended)
handle_redirects (http e) =
    if needs_email_verification e.token_status
    then (redirected 302 "/user/info?needs_verify=1" ∷ [], ended)
    else ([], fail (http e))
handle_redirects other = ([], fail other)

abbrev or_500 : Option ℕ → ℕ
or_500 none = 500
or_500 (some zero) = 500
or_500 (some (suc n)) = suc n

-- `err.status || 500`.
abbrev pub status_of : Failure → ℕ
status_of (redirecting r) = or_500 (some r.status)
status_of (http e) = or_500 e.status
status_of other = 500

abbrev pub shows_login : Failure → Bool
shows_login (redirecting r) = false
shows_login (http e) = e.shows_needs_login
shows_login other = false

pub record Rendering : Type 0 where
  pub show_exception_trace : Bool
  pub is_production : Bool
  pub path : String
  pub rendered : PageKind → Option Failure

unfoldable pub page_kind : Rendering → Failure → PageKind
page_kind rendering e =
    if not (shows_login e)
      && rendering.show_exception_trace
      && not (str_eq rendering.path "/nsickness")
      && not rendering.is_production
    then stack_trace
    else if shows_login e
    then login_page
    else error_page

abbrev pub with_page : PageKind → ℕ → Failure → Option Failure → Ran
with_page kind status e none = (logged e ∷ page_sent kind status ∷ [], pass)
with_page kind status e (some render_error) = (logged e ∷ logged render_error ∷ [], pass)

-- `errorHandler`, and `next` in any case.
unfoldable pub handle_errors : Rendering → Failure → Ran
unfolding page_kind
handle_errors rendering e =
    let kind = page_kind rendering e in with_page kind (status_of e) e (rendering.rendered kind)
