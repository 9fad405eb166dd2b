-- ===== src/Session/UrlMatch.antt =====
-- web/js/server/express/match.js: setFromUrlMatch, which fetches what the URL names. The API's
-- answer is an argument.
use sigopt_server.Base.{
  ℕ, ◌≡◌, refl, ◌==◌, Bool, true, false, none, some, Bool-cases, inl, inr, if◌then◌else◌,
}
use sigopt_server.Net.Errors.{HttpError, not_found_error, prompt_for_login_error}

pub data Fetched (A : Type 0) : Type 0 where
  found : A → Fetched A
  failed : HttpError → Fetched A

-- What `next` is called with, after the object is set on the request.
pub data Passed (A : Type 0) : Type 0 where
  object_set : A → Passed A
  passed_error : HttpError → Passed A

abbrev pub is_status : ℕ → HttpError → Bool
is_status n e = elim e.status [ none ↦ false | some m ↦ m == n ]

module _ {A : Type 0} where
  unfoldable pub after_call : Fetched A → Passed A
  unfolding not_found_error
  after_call (found a) = object_set a
  after_call (failed e) =
      if is_status 401 e then passed_error (not_found_error none none false) else passed_error e

  unfoldable pub set_from_url_match : Bool → Fetched A → Passed A
  unfolding after_call prompt_for_login_error
  set_from_url_match has_token answer =
      if has_token then after_call answer else passed_error prompt_for_login_error

  abbrev is_unauthorized : Passed A → Bool
  is_unauthorized (object_set a) = false
  is_unauthorized (passed_error e) = is_status 401 e

  -- The status 401 of the API is not passed on.
  set_from_url_match-is_unauthorized :
      (has_token : Bool) (answer : Fetched A)
      → is_unauthorized (set_from_url_match has_token answer) ≡ false
  unfolding set_from_url_match after_call not_found_error prompt_for_login_error
  set_from_url_match-is_unauthorized false answer = refl
  set_from_url_match-is_unauthorized true (found a) = refl
  set_from_url_match-is_unauthorized true (failed e) = elim (Bool-cases (is_status 401 e)) [
    | inl refused ↦ rw refused refl
    | inr other ↦ rw (other, other) refl
  ]
