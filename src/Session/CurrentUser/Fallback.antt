-- ===== src/Session/CurrentUser/Fallback.antt =====
-- web/js/server/express/current_user.js: which saved session a request falls back to.
use sigopt_server.Base.{
  ℕ, ◌≡◌, refl, ◌⊎◌, inl, inr, Bool-cases, true, false, Option, none, some, List, [], ◌∷◌, arith,
  is_some,
}
use sigopt_server.Session.LoginState.{
  Frame, LoginState, set_from, logged_out_copy, new_login_state, or_else,
}
use sigopt_server.Session.CurrentUser.{
  Answer, found, failed, is_forbidden, Next, proceed, popped, get_user_info, after_answer,
  set_current_user,
}

abbrev at : Frame → List Frame → LoginState
at own parents = record { own = own; parents = parents }

module _ {U : Type 0} (api : Frame → Answer U) where
  -- `Falls own parents s a`: popping the sessions that the API refuses, one after another, the
  -- request ends in the state `s`, for which the API answers `a`.
  pub data Falls : Frame → List Frame → LoginState → Answer U → Type 0 where
    accepted :
        {own : Frame} {parents : List Frame} (u : U)
        → api own ≡ found u
        → Falls own parents (at own parents) (found u)
    broken :
        {own : Frame} {parents : List Frame} (status : ℕ)
        → api own ≡ failed status
        → is_forbidden status ≡ false
        → Falls own parents (at own parents) (failed status)
    refused_last :
        {own : Frame} (status : ℕ)
        → api own ≡ failed status
        → is_forbidden status ≡ true
        → Falls own [] (at own []) (failed status)
    refused :
        {own parent : Frame} {rest : List Frame} {s : LoginState} {answer : Answer U} (status : ℕ)
        → api own ≡ failed status
        → is_forbidden status ≡ true
        → Falls (popped own parent) rest s answer
        → Falls own (parent ∷ rest) s answer

  Answer-cases :
      (a : Answer U)
      → ((u : U) × (a ≡ found u))
        ⊎ ((status : ℕ) × (a ≡ failed status) × (is_forbidden status ≡ true))
        ⊎ ((status : ℕ) × (a ≡ failed status) × (is_forbidden status ≡ false))
  Answer-cases (found u) = inl (u, refl)
  Answer-cases (failed status) = elim (Bool-cases (is_forbidden status)) [
    | inl e ↦ inr (inl (status, refl, e))
    | inr e ↦ inr (inr (status, refl, e))
  ]

  -- The search through the saved sessions ends, in the state and with the answer of the nearest
  -- session that the API does not refuse, or of the last one when it refuses all.
  pub get_user_info-Falls :
      (own : Frame) (parents : List Frame)
      → Falls own parents (get_user_info api own parents).0 (get_user_info api own parents).1
  unfolding get_user_info
  get_user_info-Falls own [] = elim (Answer-cases (api own)) [
    | inl (u, e) ↦ rw e (accepted u e)
    | inr (inl (status, e, f)) ↦ rw e (refused_last status e f)
    | inr (inr (status, e, f)) ↦ rw e (broken status e f)
  ]
  get_user_info-Falls own (parent ∷ parents) = elim (Answer-cases (api own)) [
    | inl (u, e) ↦ rw (e, get_user_info) (accepted u e)
    | inr (inl (status, e, f)) ↦
        rw (e, f, get_user_info)
          (refused status e f (get_user_info-Falls (popped own parent) parents))
    | inr (inr (status, e, f)) ↦ rw (e, f, get_user_info) (broken status e f)
  ]

  Falls-genuine :
      {own : Frame} {parents : List Frame} {s : LoginState} {answer : Answer U}
      → Falls own parents s answer
      → api s.own ≡ answer
  Falls-genuine (accepted u e) = e
  Falls-genuine (broken status e f) = e
  Falls-genuine (refused_last status e f) = e
  Falls-genuine (refused status e f later) = Falls-genuine later

  Falls-csrf :
      {own : Frame} {parents : List Frame} {s : LoginState} {answer : Answer U}
      → Falls own parents s answer
      → is_some own.csrf_token ≡ true
      → is_some s.csrf_token ≡ true
  Falls-csrf (accepted u e) h = h
  Falls-csrf (broken status e f) h = h
  Falls-csrf (refused_last status e f) h = h
  Falls-csrf (refused {own} {parent} status e f later) h =
      Falls-csrf later (or_else-some parent.csrf_token own.csrf_token h)
    where
      or_else-some : (a b : Option ℕ) → is_some b ≡ true → is_some (or_else a b) ≡ true
      or_else-some none b h = h
      or_else-some (some a) b h = refl

  -- What the request acts as once `setCurrentUser` is done with a logged-in state.
  pub record Settled (s : LoginState) (r : LoginState × Option U × Next) : Type 0 where
    -- A user that is set is the one that the API gives for the login state kept.
    pub genuine : (u : U) → r.1 ≡ some u → api r.0.own ≡ found u
    -- Without a user the request goes on only logged out.
    pub logged_out :
        r.1 ≡ none
        → r.2 ≡ proceed
        → (r.0.api_token ≡ none) × (r.0.user_id ≡ none) × (r.0.parents ≡ [])
    -- The csrf token is not lost.
    pub csrf : is_some s.csrf_token ≡ true → is_some r.0.csrf_token ≡ true

  after_answer-Settled :
      (s s' : LoginState) (answer : Answer U)
      → api s'.own ≡ answer
      → (is_some s.csrf_token ≡ true → is_some s'.csrf_token ≡ true)
      → Settled s (after_answer api (s', answer))
  unfolding after_answer logged_out_copy new_login_state set_from
  after_answer-Settled s s' (found u) e c = record {
    genuine = λ v same. cc;
    logged_out = λ no_user p. cc;
    csrf = c;
  }
  after_answer-Settled s s' (failed status) e c = elim (Bool-cases (is_forbidden status)) [
    | inl f ↦ rw f (record {
      genuine = λ v same. cc;
      logged_out = λ no_user p. (refl, refl, refl);
      csrf = λ h. ground (arith, c h);
    })
    | inr f ↦ rw f (record { genuine = λ v same. cc; logged_out = λ no_user p. cc; csrf = c })
  ]

  -- `setCurrentUser` on a login state that has a user id, for a path that is not of the static
  -- files: the user set is the API's for the state kept; a request whose user is not found goes on
  -- only logged out, without token, user and saved sessions; and a csrf token stays.
  pub set_current_user-Settled :
      (s : LoginState) → is_some s.user_id ≡ true → Settled s (set_current_user api false s)
  unfolding set_current_user
  set_current_user-Settled s e =
      let falls = get_user_info-Falls s.own s.parents in
      rw e (
        after_answer-Settled s (get_user_info api s.own s.parents).0 _ (Falls-genuine falls)
          (Falls-csrf falls))
