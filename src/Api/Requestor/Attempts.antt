-- ===== src/Api/Requestor/Attempts.antt =====
-- web/js/api/api-requestor.js: how often the network is asked, and what is called back.
use sigopt_server.Base.{
  ℕ, ◌≡◌, ◌⊎◌, inl, inr, refl, Bool, true, false, Bool-cases, Option-cases, suc, ◌==◌, ◌&&◌, Option,
  none, some, List, [], ◌∷◌, arith, if◌then◌else◌,
}
use Prim.Native.String.{String}
use sigopt_server.Api.Requestor.{
  Method, is_get, Answer, response, net_error, Error, Call, clear_alerts, on_success, on_error,
  Callbacks, calls, handed, attempt, error_handler, retry_on_504, request,
}

abbrev pub is_504 : Answer → Bool
is_504 (net_error (some status)) = status == 504
is_504 answer = false

abbrev pub is_callback : {J : Type 0} → Call J → Bool
is_callback (on_success parsed) = true
is_callback (on_error error) = true
is_callback c = false

abbrev pub count_callbacks : {J : Type 0} → List (Call J) → ℕ
count_callbacks [] = 0
count_callbacks (c ∷ cs) = if is_callback c then suc (count_callbacks cs) else count_callbacks cs

-- `clearAlerts` is no callback.
cleared :
    {J : Type 0} (b : Bool) (cs : List (Call J))
    → count_callbacks cs ≡ 1
    → count_callbacks (if b then clear_alerts ∷ cs else cs) ≡ 1
cleared true cs h = h
cleared false cs h = h

Answer-cases :
    (a : Answer)
    → ((text : String) × (status : ℕ) × (a ≡ response text status))
      ⊎ ((status : Option ℕ) × (a ≡ net_error status))
Answer-cases (response text status) = inl (text, status, refl)
Answer-cases (net_error status) = inr (status, refl)

module _ {J : Type 0} (parse : String → Option J) (callbacks : Callbacks) where
  -- The calls of an attempt that is the last one.
  pub concluded : Answer → List (Call J)
  unfolding attempt error_handler
  concluded answer = elim (attempt parse callbacks answer) [
    | calls cs ↦ cs
    | handed error ↦ error_handler parse callbacks error
  ]

  concluded-one :
      (handles : Error → Bool) (answer : Answer)
      → callbacks.has_success ≡ true
      → callbacks.error_handles ≡ some handles
      → count_callbacks (concluded answer) ≡ 1
  unfolding concluded attempt error_handler
  concluded-one handles (response text status) s e = elim (Option-cases (parse text)) [
    | inl p ↦ ground arith
    | inr (parsed, p) ↦ ground arith
  ]
  concluded-one handles (net_error status) s e = ground arith

  last_attempt :
      (method : Method) (answers : ℕ → Answer)
      → retry_on_504 parse callbacks method 0 answers ≡ (1, concluded (answers 0))
  unfolding retry_on_504 concluded attempt
  last_attempt method answers = elim (Answer-cases (answers 0)) [
    | inl (text, status, e) ↦ elim (Bool-cases callbacks.has_success) [
      | inl s ↦ elim (Option-cases (parse text)) [
        | inl p ↦ rw (retry_on_504, e, concluded, attempt, s, p) refl
        | inr (parsed, p) ↦ rw (retry_on_504, e, concluded, attempt, s, p) refl
      ]
      | inr s ↦ rw (retry_on_504, e, concluded, attempt, s) refl
    ]
    | inr (status, e) ↦ rw (retry_on_504, e, concluded, attempt) refl
  ]

  first_attempt :
      (method : Method) (answers : ℕ → Answer)
      → retry_on_504 parse callbacks method 1 answers ≡ (
          let again = is_get method && is_504 (answers 0) in
          ((if again then 2 else 1), concluded (answers (if again then 1 else 0))))
  unfolding retry_on_504 concluded attempt
  first_attempt method answers = elim (Bool-cases (is_get method)) [
    | inl g ↦ elim (Answer-cases (answers 0)) [
      | inl (text, status, e) ↦ elim (Bool-cases callbacks.has_success) [
        | inl s ↦ elim (Option-cases (parse text)) [
          | inl p ↦ rw (retry_on_504, e, concluded, attempt, s, p, g) (rw (e, s, p) refl)
          | inr (parsed, p) ↦ rw (retry_on_504, e, concluded, attempt, s, p, g) (rw (e, s, p) refl)
        ]
        | inr s ↦ rw (retry_on_504, e, concluded, attempt, s, g) (rw (e, s) refl)
      ]
      | inr (none, e) ↦ rw (retry_on_504, e, concluded, attempt, g) (rw e refl)
      | inr (some status, e) ↦ elim (Bool-cases (status == 504)) [
        | inl f ↦
            rw (retry_on_504, e, attempt, g, f, last_attempt method (λ n. answers (suc n))) refl
        | inr f ↦ rw (retry_on_504, e, concluded, attempt, g, f) (rw e refl)
      ]
    ]
    | inr g ↦ elim (Answer-cases (answers 0)) [
      | inl (text, status, e) ↦ elim (Bool-cases callbacks.has_success) [
        | inl s ↦ elim (Option-cases (parse text)) [
          | inl p ↦ rw (retry_on_504, e, concluded, attempt, s, p, g) (rw (e, s, p) refl)
          | inr (parsed, p) ↦ rw (retry_on_504, e, concluded, attempt, s, p, g) (rw (e, s, p) refl)
        ]
        | inr s ↦ rw (retry_on_504, e, concluded, attempt, s, g) (rw (e, s) refl)
      ]
      | inr (status, e) ↦ rw (retry_on_504, e, concluded, attempt, g) (rw e refl)
    ]
  ]

  -- A request is sent once, or twice if it is a GET and the first answer is an error of status
  -- 504; what is called is what the last of these answers leads to, and if both callbacks were
  -- given, exactly one of them is called, once.
  pub request-attempts :
      (method : Method) (answers : ℕ → Answer)
      → let again = is_get method && is_504 (answers 0) in
        let r = request parse callbacks method answers in
        (r.0 ≡ (if again then 2 else 1))
        × (r.1 ≡ (
            if callbacks.use_legacy_error_notifier
            then clear_alerts ∷ concluded (answers (if again then 1 else 0))
            else concluded (answers (if again then 1 else 0))))
        × ((handles : Error → Bool)
            → callbacks.has_success ≡ true
            → callbacks.error_handles ≡ some handles
            → count_callbacks r.1 ≡ 1)
  unfolding request
  request-attempts method answers =
      let again = is_get method && is_504 (answers 0) in
      rw (first_attempt method answers) (
        refl,
        refl,
        λ handles s h.
            cleared callbacks.use_legacy_error_notifier _
              (concluded-one handles (answers (if again then 1 else 0)) s h),
      )
