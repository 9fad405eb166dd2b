-- ===== src/Api/Tests.antt =====
-- web/js/api: the theorems about requests at small inputs.
use Prim.Native.String.{String}
use sigopt_server.Base.{ℕ, ◌≡◌, true, false, Bool, zero, suc, Option, some}
use sigopt_server.Api.Requestor.{get, Answer, net_error, response, Error, Callbacks, request}
use sigopt_server.Api.Requestor.Attempts.{request-attempts, concluded, count_callbacks}

abbrev parse : String → Option String
parse text = some text

abbrev unhandled : Error → Bool
unhandled error = false

abbrev callbacks : Callbacks
callbacks = record {
  has_success = true;
  error_handles = some unhandled;
  use_legacy_error_notifier = false;
}

abbrev answers : ℕ → Answer
answers zero = net_error (some 504)
answers (suc n) = response "{}" 200

request-attempts_example :
    let r = request parse callbacks get answers in
    (r.0 ≡ 2)
    × (r.1 ≡ concluded parse callbacks (response "{}" 200))
    × ((handles : Error → Bool)
        → true ≡ true
        → callbacks.error_handles ≡ some handles
        → count_callbacks r.1 ≡ 1)
request-attempts_example = request-attempts parse callbacks get answers
