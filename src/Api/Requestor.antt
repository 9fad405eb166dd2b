-- ===== src/Api/Requestor.antt =====
-- web/js/api/api-requestor.js: one request to the API, with its retry. The network's answer to each
-- attempt is an argument, as are `JSON.parse`, `JSON.stringify` and `btoa`. `P` are the values of
-- the parameters, `J` what the parser yields. A callback that is left out is none; of the error
-- callback it matters whether it returns `false`.
pub mod Attempts
pub mod Parameters
use Prim.Native.String.{String, ◌++◌ as ◌<>◌}
use text.Mathlib.Text.{◌==◌ as str_eq}
use sigopt_server.Base.{
  ℕ, zero, suc, Bool, true, false, not, ◌&&◌, ◌||◌, Option, none, some, List, [], ◌∷◌, ◌++◌, ◌==◌,
  if◌then◌else◌,
}

pub data Method : Type 0 where
  get post put delete : Method

abbrev pub is_get : Method → Bool
is_get get = true
is_get m = false

abbrev pub is_get_or_delete : Method → Bool
is_get_or_delete get = true
is_get_or_delete delete = true
is_get_or_delete m = false

pub data Param (P : Type 0) : Type 0 where
  undefined null : Param P
  value : P → Param P

abbrev pub is_undefined_or_null : {P : Type 0} → Param P → Bool
is_undefined_or_null (value p) = false
is_undefined_or_null p = true

-- The parameters, an object; no key stands twice.
abbrev pub Params : Type 0 → Type 0
Params P = List (String × Param P)

pub remove_null_params : {P : Type 0} → Params P → Params P
remove_null_params [] = []
remove_null_params ((key, p) ∷ params) =
    let rest = remove_null_params params in if is_undefined_or_null p then rest else (key, p) ∷ rest

-- `_sanitizeParams`; none are parameters that are undefined or null.
pub sanitize_params : {P : Type 0} → Method → Option (Params P) → Option (Params P)
unfolding remove_null_params
sanitize_params method none = if is_get_or_delete method then some [] else none
sanitize_params method (some params) =
    some (if is_get_or_delete method then remove_null_params params else params)

-- `requestOptions.data`: left out, an object, or a text.
pub data Body (P : Type 0) : Type 0 where
  nothing : Body P
  query : Params P → Body P
  json : String → Body P

pub record Options : Type 0 where
  pub api_url : String
  pub trace_id : String
  pub token : Option String

pub record RequestOptions (P : Type 0) : Type 0 where
  pub method : Method
  pub url : String
  pub trace_id : String
  pub authorization : Option String
  pub data_sent : Body P

-- `setApiToken`, and `withApiToken`, which makes another requestor.
pub set_api_token : Option String → Options → Options
set_api_token token options = record options { token = token }

abbrev pub to_auth_header : (String → String) → String → String
to_auth_header btoa token = "Basic " <> btoa (token <> ":")

abbrev auth_header : (String → String) → Option String → Option String
auth_header btoa none = none
auth_header btoa (some token) = if str_eq token "" then none else some (to_auth_header btoa token)

module _ {P : Type 0} (btoa : String → String) (stringify : Params P → String) where
  pub body_of : Method → Option (Params P) → Body P
  body_of method none = nothing
  body_of method (some params) =
      if is_get_or_delete method then query params else json (stringify params)

  -- The `requestOptions` of `request`.
  pub request_options : Options → Method → String → String → Option (Params P) → RequestOptions P
  unfolding sanitize_params body_of
  request_options options method path url_prefix params = record {
    method = method;
    url = options.api_url <> (url_prefix <> path);
    trace_id = options.trace_id;
    authorization = auth_header btoa options.token;
    data_sent = body_of method (sanitize_params method params);
  }

-- The network's answer to an attempt: data with a status, or an error with its status.
pub data Answer : Type 0 where
  response : String → ℕ → Answer
  net_error : Option ℕ → Answer

-- What an error handler gets: the network's error, or the one for a response that is no JSON.
pub data Error : Type 0 where
  failed : Option ℕ → Error
  invalid_json : ℕ → String → Error

-- What a request calls: `clearAlerts`, the two callbacks, and `cleanupError`.
pub data Call (J : Type 0) : Type 0 where
  clear_alerts : Call J
  on_success : J → Call J
  on_error cleanup_error : Error → Call J

pub record Callbacks : Type 0 where
  pub has_success : Bool
  -- Whether the error callback returns `false`.
  pub error_handles : Option (Error → Bool)
  pub use_legacy_error_notifier : Bool

abbrev pub has_status_504 : Error → Bool
has_status_504 (failed (some status)) = status == 504
has_status_504 error = false

module _ {J : Type 0} (parse : String → Option J) (callbacks : Callbacks) where
  -- `errorHandler`.
  pub error_handler : Error → List (Call J)
  error_handler error = elim callbacks.error_handles [
    | none ↦ if callbacks.use_legacy_error_notifier then cleanup_error error ∷ [] else []
    | some handles ↦
        on_error error
        ∷ (if not (handles error) && callbacks.use_legacy_error_notifier
            then cleanup_error error ∷ []
            else [])
  ]

  -- What an attempt ends with: calls, or an error for the handler of the attempt.
  pub data Ending : Type 0 where
    calls : List (Call J) → Ending
    handed : Error → Ending

  pub attempt : Answer → Ending
  attempt (response text status) =
      if callbacks.has_success
      then elim (parse text) [
        | some parsed ↦ calls (on_success parsed ∷ [])
        | none ↦ handed (invalid_json status text)
      ]
      else calls []
  attempt (net_error status) = handed (failed status)

  -- `retryOn504`: the number of attempts, and the calls; `answers` are those of the attempts from
  -- this one on.
  pub retry_on_504 : Method → ℕ → (ℕ → Answer) → ℕ × List (Call J)
  unfolding attempt error_handler
  retry_on_504 method zero answers = elim (attempt (answers 0)) [
    | calls cs ↦ (1, cs)
    | handed error ↦ (1, error_handler error)
  ]
  retry_on_504 method (suc retries) answers =
      let (count, cs) = retry_on_504 method retries (λ n. answers (suc n)) in
      elim (attempt (answers 0)) [
        | calls cs' ↦ (1, cs')
        | handed error ↦
            if is_get method && has_status_504 error
            then (suc count, cs)
            else (1, error_handler error)
      ]

  -- `request`, as far as it calls back.
  pub request : Method → (ℕ → Answer) → ℕ × List (Call J)
  unfolding retry_on_504
  request method answers =
      let (count, cs) = retry_on_504 method 1 answers in
      (count, (if callbacks.use_legacy_error_notifier then clear_alerts ∷ cs else cs))
