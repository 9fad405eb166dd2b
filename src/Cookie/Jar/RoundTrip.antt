-- ===== src/Cookie/Jar/RoundTrip.antt =====
-- web/js/server/express/cookie.js: what one request leaves in the jar for the next.
use sigopt_server.Base.{
  ℕ, ◌≡◌, subst, ap, sym, ◌∙◌, refl, ◌&&◌, inl, inr, Bool, true, false, Option, none, some, get_or,
  ==_iff, arith, Bool-cases, Option-cases,
}
use sigopt_server.Session.LoginState.{LoginState, new_login_state, set_from}
use sigopt_server.Session.LoginState.Stored.{
  id_json, as_id, as_id-id_json, login_state_of, login_state_of-to_json, value_at-other,
  value_at-present,
}
use sigopt_server.Utils.Json.{Fields, end, field_at, present}
use sigopt_server.Cookie.Jar.{
  Jar, state, no_such_key, empty_state, with_csrf, preferences_of, preferences_json, CookieState,
  Preferences, Request, cookie_state_of, read_cookie_from_cookiejar, make_request,
  read_request_cookies, response_cookie_id, store_state, set_response_cookies, write, delete,
  same_id, is_valid_old,
}

new_login_state-id : (s : LoginState) → new_login_state s ≡ s
unfolding new_login_state set_from
new_login_state-id s = ground arith

abbrev read_in : {A : Type 0} → (Fields → A) → Option Fields → Option A
read_in read none = none
read_in read (some fields) = some (read fields)

-- What a request reads in a stored object.
abbrev pub login_state_in : CookieState → Option LoginState
login_state_in s = read_in login_state_of s.login_state

abbrev pub preferences_in : CookieState → Option Preferences
preferences_in s = read_in preferences_of s.preferences

-- Objects in which each key that is read has the same value, the keys of saved states included.
abbrev pub Alike : CookieState → CookieState → Type 0
Alike s t = (login_state_in s ≡ login_state_in t) × (preferences_in s ≡ preferences_in t)

preferences_of-preferences_json : (p : Preferences) → preferences_of (preferences_json p) ≡ p
unfolding preferences_of preferences_json field_at
preferences_of-preferences_json p =
    let user = id_json p.user_id in
    let client = id_json p.client_id in
    let of_user =
      ap as_id (
        value_at-present "userId" user (present "clientId" client end) refl
          (value_at-other "clientId" "userId" client end refl))
      ∙ as_id-id_json p.user_id in
    let of_client =
      ap as_id (
        value_at-other "userId" "clientId" user (present "clientId" client end) refl
        ∙ value_at-present "clientId" client end refl refl)
      ∙ as_id-id_json p.client_id in
    λ i. record { user_id = of_user i; client_id = of_client i }

module _ (valid : ℕ → Bool) (is_equal : CookieState → CookieState → Bool) (can_delete : ℕ → Bool)
    (equal_sound : (s t : CookieState) → is_equal s t ≡ true → Alike s t) where
  -- The request's state is what the jar has under its id, or nothing was read for it.
  abbrev pub IsRead : Jar → Request → Type 0
  IsRead jar req =
      (id : ℕ)
      → req.cookie_id ≡ some id
      → read_cookie_from_cookiejar (jar id) ≡ some (some req.cookie_state)

  -- What is stored under an id reads like the state of the request.
  abbrev pub Stores : Jar → ℕ → Request → Type 0
  Stores jar id req =
      (s : CookieState) × (read_cookie_from_cookiejar (jar id) ≡ some (some s))
      × (login_state_in s ≡ some req.login_state)
      × (preferences_in s ≡ some req.preferences)

  cookie_state_of-login_state :
      (req : Request) → login_state_in (cookie_state_of req) ≡ some req.login_state
  unfolding cookie_state_of
  cookie_state_of-login_state req = ap some (login_state_of-to_json req.login_state)

  cookie_state_of-preferences :
      (req : Request) → preferences_in (cookie_state_of req) ≡ some req.preferences
  unfolding cookie_state_of
  cookie_state_of-preferences req = ap some (preferences_of-preferences_json req.preferences)

  read_write :
      (jar : Jar) (id : ℕ) (s : CookieState)
      → read_cookie_from_cookiejar (write jar id (state s) id) ≡ some (some s)
  unfolding read_cookie_from_cookiejar write
  read_write jar id s = ground (arith, ==_iff id id)

  same_id-eq : (o : Option ℕ) (id : ℕ) → same_id o id ≡ true → o ≡ some id
  same_id-eq none id e = cc
  same_id-eq (some old) id e = ground arith

  read_store_state :
      (jar : Jar) (id : ℕ) (req : Request)
      → IsRead jar req
      → Stores (store_state is_equal jar id req) id req
  unfolding store_state
  read_store_state jar id req read =
      elim (Bool-cases
        (same_id req.cookie_id id && is_equal (cookie_state_of req) req.cookie_state)) [
          | inl e ↦
              let alike = equal_sound (cookie_state_of req) req.cookie_state (ground arith) in
              rw e (
                req.cookie_state,
                read id (same_id-eq req.cookie_id id (ground arith)),
                sym alike.0 ∙ cookie_state_of-login_state req,
                sym alike.1 ∙ cookie_state_of-preferences req,
              )
          | inr e ↦ rw e (
            cookie_state_of req,
            read_write jar id (cookie_state_of req),
            cookie_state_of-login_state req,
            cookie_state_of-preferences req,
          )
        ]

  -- Deleting the old object leaves the one under the response's id.
  delete-other :
      (jar : Jar) (old : Option ℕ) (id : ℕ)
      → is_valid_old valid old id ≡ true
      → delete can_delete jar (get_or old id) id ≡ jar id
  unfolding delete
  delete-other jar none id e = cc
  delete-other jar (some old) id e = ground (arith, ==_iff id old, ==_iff old id)

  stored :
      (jar : Jar) (new_id : ℕ) (req : Request)
      → IsRead jar req
      → let r = set_response_cookies valid is_equal can_delete jar new_id req in Stores r.0 r.1 req
  unfolding set_response_cookies
  stored jar new_id req read =
      let id = response_cookie_id new_id req in
      let jar' = store_state is_equal jar id req in
      elim (Bool-cases (is_valid_old valid req.cookie_id id)) [
        | inl e ↦
            let (s, found, login, prefs) = read_store_state jar id req read in
            rw e (
              s,
              ap read_cookie_from_cookiejar (delete-other jar' req.cookie_id id e) ∙ found,
              login,
              prefs,
            )
        | inr e ↦ rw e (read_store_state jar id req read)
      ]

  abbrev or_empty : Option (Option CookieState) → CookieState
  or_empty (some (some s)) = s
  or_empty o = empty_state

  -- The object that the jar has under an id.
  pub stored_state : Jar → ℕ → CookieState
  unfolding read_cookie_from_cookiejar
  stored_state jar id = or_empty (read_cookie_from_cookiejar (jar id))

  -- A request that `readRequestCookies` made, whatever was changed on it since.
  pub changed : Request → LoginState → Preferences → Bool → Request
  changed req login_state preferences force_new_cookie_id = record req {
    login_state = login_state;
    preferences = preferences;
    force_new_cookie_id = force_new_cookie_id;
  }

  read-IsRead :
      (jar : Jar) (token : ℕ) (cookie : Option ℕ) (req : Request)
      → read_request_cookies valid jar token cookie ≡ some req
      → (id : ℕ) → req.cookie_id ≡ some id
      → (valid id ≡ true) × (read_cookie_from_cookiejar (jar id) ≡ some (some req.cookie_state))
  unfolding read_request_cookies
  read-IsRead jar token none req e id h = ground arith
  read-IsRead jar token (some c) req e id h = ground arith

  response-valid :
      (new_id : ℕ) (req : Request)
      → valid new_id ≡ true
      → ((id : ℕ) → req.cookie_id ≡ some id → valid id ≡ true)
      → valid (response_cookie_id new_id req) ≡ true
  unfolding response_cookie_id
  response-valid new_id req v h = elim (Option-cases req.cookie_id) [
    | inl e ↦ ground arith
    | inr (id, e) ↦ ground (arith, h id e)
  ]

  response-id-valid :
      (jar : Jar) (new_id : ℕ) (req : Request)
      → valid (response_cookie_id new_id req) ≡ true
      → valid (set_response_cookies valid is_equal can_delete jar new_id req).1 ≡ true
  unfolding set_response_cookies
  response-id-valid jar new_id req h = h

  read-found :
      (jar : Jar) (token id : ℕ) (s : CookieState)
      → valid id ≡ true
      → read_cookie_from_cookiejar (jar id) ≡ some (some s)
      → read_request_cookies valid jar token (some id) ≡ some (make_request token s (some id))
  unfolding read_request_cookies
  read-found jar token id s v e = rw (v, e)

  make_request-read :
      (token id : ℕ) (s : CookieState) (login_state : LoginState) (preferences : Preferences)
      → login_state_in s ≡ some login_state
      → preferences_in s ≡ some preferences
      → make_request token s (some id) ≡ record {
        login_state = login_state;
        preferences = preferences;
        cookie_state = s;
        cookie_id = some id;
        force_new_cookie_id = false;
      }
  unfolding make_request
  make_request-read token id s login_state preferences e d =
      let login = read_as login_state_of s.login_state (with_csrf token) login_state e in
      let prefs = read_as preferences_of s.preferences end preferences d in
      λ i. record {
        login_state = (ap new_login_state login ∙ new_login_state-id login_state) i;
        preferences = prefs i;
        cookie_state = s;
        cookie_id = some id;
        force_new_cookie_id = false;
      }
    where
      read_as :
          {A : Type 0} (read : Fields → A) (o : Option Fields) (other : Fields) (a : A)
          → read_in read o ≡ some a
          → read (get_or o other) ≡ a
      read_as read none other a h = cc
      read_as read (some fields) other a h = cc

  -- The session survives from one request to the next: what the handlers made of the login state,
  -- saved states included, and of the preferences is what the next request with the response's
  -- cookie reads, through the object that is stored. The new id is valid, the bucket takes what is
  -- written, and `_.isEqual` holds only of objects that read alike.
  pub read-set-read :
      (jar : Jar) (token token' new_id : ℕ) (cookie : Option ℕ) (req : Request)
      (login_state : LoginState) (preferences : Preferences) (force_new_cookie_id : Bool)
      → read_request_cookies valid jar token cookie ≡ some req
      → valid new_id ≡ true
      → let req' = changed req login_state preferences force_new_cookie_id in
        let (jar', id) = set_response_cookies valid is_equal can_delete jar new_id req' in
        read_request_cookies valid jar' token' (some id)
        ≡ some (record {
          login_state = login_state;
          preferences = preferences;
          cookie_state = stored_state jar' id;
          cookie_id = some id;
          force_new_cookie_id = false;
        })
  unfolding changed stored_state
  read-set-read jar token token' new_id cookie req login_state preferences force e v =
      let req' = changed req login_state preferences force in
      let facts = read-IsRead jar token cookie req e in
      let r = set_response_cookies valid is_equal can_delete jar new_id req' in
      let (s, found, login, prefs) = stored jar new_id req' (λ id h. (facts id h).1) in
      read-found r.0 token' r.1 s
        (response-id-valid jar new_id req' (response-valid new_id req' v (λ id h. (facts id h).0)))
        found
      ∙ ap some (make_request-read token' r.1 s login_state preferences login prefs)
      ∙ ap
          (λ o. some (record {
            login_state = login_state;
            preferences = preferences;
            cookie_state = or_empty o;
            cookie_id = some r.1;
            force_new_cookie_id = false;
          }))
          (sym found)

  unknown-id :
      (jar : Jar) (token id : ℕ) (req : Request)
      → jar id ≡ no_such_key
      → valid id ≡ true
      → read_request_cookies valid jar token (some id) ≡ some req
      → (req.cookie_id ≡ some id) × (req.force_new_cookie_id ≡ false)
  unfolding read_request_cookies
  unknown-id jar token id req unknown v e = ground arith

  kept-id :
      (jar : Jar) (new_id id : ℕ) (req : Request)
      → req.cookie_id ≡ some id
      → req.force_new_cookie_id ≡ false
      → (set_response_cookies valid is_equal can_delete jar new_id req).1 ≡ id
  unfolding set_response_cookies response_cookie_id
  kept-id jar new_id id req given unforced = ground arith

  -- A client's id that is valid but that the jar does not know is taken over: without a forced new
  -- id the response's cookie has it again, and the state is stored under it.
  pub read-unknown_kept :
      (jar : Jar) (token new_id id : ℕ) (req : Request)
      → jar id ≡ no_such_key
      → valid id ≡ true
      → read_request_cookies valid jar token (some id) ≡ some req
      → let r = set_response_cookies valid is_equal can_delete jar new_id req in
        (r.1 ≡ id) × Stores r.0 id req
  read-unknown_kept jar token new_id id req unknown v e =
      let (given, unforced) = unknown-id jar token id req unknown v e in
      let same = kept-id jar new_id id req given unforced in
      (
        same,
        subst (λ k. Stores (set_response_cookies valid is_equal can_delete jar new_id req).0 k req)
            same (stored jar new_id req (λ k h. (read-IsRead jar token (some id) req e k h).1)),
      )
