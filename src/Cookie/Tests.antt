-- ===== src/Cookie/Tests.antt =====
-- web/js/server: the theorems about cookies at small inputs.
use sigopt_server.Base.{
  ◌∷◌, ◌&&◌, ap, arith, Option, ℕ, ◌≡◌, refl, false, true, Bool, none, some, [],
}
use sigopt_server.Session.LoginState.{LoginState, empty_frame, new_login_state}
use sigopt_server.Session.LoginState.Stored.{login_state_of}
use sigopt_server.Utils.Json.{Fields, field_at}
use sigopt_server.Cookie.Jar.{
  Jar, CookieState, Preferences, Request, no_such_key, empty_state, read_request_cookies,
  set_response_cookies, preferences_of,
}
use sigopt_server.Cookie.Jar.RoundTrip.{
  read-set-read, changed, Alike, login_state_in, preferences_in, stored_state,
}

-- An equality that holds of empty states only.
abbrev both_none : Option Fields → Option Fields → Bool
both_none none none = true
both_none o p = false

abbrev both_empty : CookieState → CookieState → Bool
both_empty s t = both_none s.login_state t.login_state && both_none s.preferences t.preferences

both_none-eq : (o p : Option Fields) → both_none o p ≡ true → o ≡ p
both_none-eq none none e = refl
both_none-eq none (some j) e = cc
both_none-eq (some i) none e = cc
both_none-eq (some i) (some j) e = cc

both_empty-Alike : (s t : CookieState) → both_empty s t ≡ true → Alike s t
both_empty-Alike s t e = (
  ap (λ o. login_state_in (record { login_state = o; preferences = none }))
      (both_none-eq s.login_state t.login_state (ground arith)),
  ap (λ o. preferences_in (record { login_state = none; preferences = o }))
      (both_none-eq s.preferences t.preferences (ground arith)),
)

abbrev any_id : ℕ → Bool
any_id id = true

abbrev empty_jar : Jar
empty_jar id = no_such_key

abbrev first_request : Request
first_request = record {
  login_state = record { own = record empty_frame { csrf_token = some 50 }; parents = [] };
  preferences = record { user_id = none; client_id = none };
  cookie_state = empty_state;
  cookie_id = some 3;
  force_new_cookie_id = false;
}

abbrev signed_in : LoginState
signed_in = record {
  own = record empty_frame { csrf_token = some 50; user_id = some 9; is_guest = some true };
  parents = record empty_frame { api_token = some 5; user_id = some 8 } ∷ [];
}

abbrev chosen : Preferences
chosen = record { user_id = some 9; client_id = none }

read-set-read_example :
    let req' =
      changed any_id both_empty any_id both_empty-Alike first_request signed_in chosen true in
    let (jar', id) = set_response_cookies any_id both_empty any_id empty_jar 4 req' in
    read_request_cookies any_id jar' 51 (some id)
    ≡ some (record {
      login_state = signed_in;
      preferences = chosen;
      cookie_state = stored_state any_id both_empty any_id both_empty-Alike jar' id;
      cookie_id = some id;
      force_new_cookie_id = false;
    })
unfolding read_request_cookies new_login_state login_state_of preferences_of field_at
read-set-read_example =
    read-set-read any_id both_empty any_id both_empty-Alike empty_jar 50 51 4 (some 3) first_request
      signed_in chosen true refl refl
