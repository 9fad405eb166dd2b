-- ===== src/Server/Stack.antt =====
-- web/js/server/express/always.js, over the stack of middleware that Express runs. What a handler
-- does is a list of effects, and then `next`; what it throws is an error. How Express runs the stack
-- is a parameter, with what is documented of it.
use Prim.Native.String.{String}
use sigopt_server.Base.{ℕ, ◌≡◌, Option, none, some, List, [], ◌∷◌, ◌++◌}
use sigopt_server.Net.Errors.{HttpError}

-- web/js/net/redirect.js.
pub record Redirect : Type 0 where
  pub status : ℕ
  pub location : String

-- What may be thrown or rejected with; any other value has no status.
pub data Failure : Type 0 where
  redirecting : Redirect → Failure
  http : HttpError → Failure
  other : Failure

-- What an error page is rendered by.
pub data PageKind : Type 0 where
  login_page error_page stack_trace : PageKind

pub data Sending : Type 0 where
  standard_headers : Sending
  cookie_written : ℕ → Sending
  response_sent : ℕ → Sending
  redirected : ℕ → String → Sending
  page_sent : PageKind → ℕ → Sending
  logged : Failure → Sending
  console_error : Failure → Sending

-- How `next` is called, if it is.
pub data NextCall : Type 0 where
  pass : NextCall
  fail : Failure → NextCall
  ended : NextCall

abbrev pub Ran : Type 0
Ran = List Sending × NextCall

pub data Handler : Type 0 where
  of_request : Ran → Handler
  of_error : (Failure → Ran) → Handler

abbrev pub with_before : List Sending → Ran → Ran
with_before before (effects, next) = (before ++ effects, next)

abbrev pub and_next : Ran → (Option Failure → Ran) → Ran
and_next (effects, pass) rest = with_before effects (rest none)
and_next (effects, fail e) rest = with_before effects (rest (some e))
and_next (effects, ended) rest = (effects, ended)

-- A handler of requests is skipped while there is an error, a handler of errors while there is none.
pub record Express : Type 0 where
  pub run : List Handler → Option Failure → Ran
  pub run_none : run [] none ≡ ([], pass)
  pub run_failed : (e : Failure) → run [] (some e) ≡ ([], fail e)
  pub run_request :
      (ran : Ran) (handlers : List Handler)
      → run (of_request ran ∷ handlers) none ≡ and_next ran (run handlers)
  pub skip_request :
      (ran : Ran) (handlers : List Handler) (e : Failure)
      → run (of_request ran ∷ handlers) (some e) ≡ run handlers (some e)
  pub run_error :
      (f : Failure → Ran) (handlers : List Handler) (e : Failure)
      → run (of_error f ∷ handlers) (some e) ≡ and_next (f e) (run handlers)
  pub skip_error :
      (f : Failure → Ran) (handlers : List Handler)
      → run (of_error f ∷ handlers) none ≡ run handlers none

-- `ourNext`: of two errors, the later is passed on and the earlier goes to the console.
abbrev pub our_next : Failure → Ran → Ran
our_next e (effects, pass) = (effects, fail e)
our_next e (effects, fail later) = (effects ++ console_error e ∷ [], fail later)
our_next e (effects, ended) = (effects, ended)

-- `app.always`.
abbrev pub always : Ran → List Handler
always ran = of_error (λ e. our_next e ran) ∷ of_request ran ∷ []
