-- ===== src/Cookie/Jar.antt =====
-- web/js/server/express/cookie.js: the cookie jar, a bucket of objects by cookie id. Ids are
-- opaque; `valid` is `isValidCookieId`, and `is_equal` the `_.isEqual` of the package underscore.
-- What is stored are the objects that `toJson` and `json` give, keys with no value left out, as
-- `JSON.stringify` does; their text stands by the object.
pub mod RoundTrip
pub mod Others
use sigopt_server.Base.{
  ℕ, ◌≡◌, Bool, true, false, not, ◌&&◌, ◌||◌, Option, none, some, is_some, get_or, ◌==◌,
  if◌then◌else◌, [],
}
use sigopt_server.Session.LoginState.{LoginState, new_login_state}
use sigopt_server.Session.LoginState.Stored.{id_json, as_id, to_json, login_state_of}
use sigopt_server.Utils.Json.{number, Fields, end, field, field_at, value_at, present}

-- web/js/server/user_prefs.js.
pub record Preferences : Type 0 where
  pub user_id : Option ℕ
  pub client_id : Option ℕ

-- `json`.
unfoldable pub preferences_json : Preferences → Fields
preferences_json p =
    present "userId" (id_json p.user_id) (present "clientId" (id_json p.client_id) end)

-- `new Preferences(prefs)`.
unfoldable pub preferences_of : Fields → Preferences
unfolding field_at
preferences_of prefs = record {
  user_id = as_id (value_at "userId" prefs);
  client_id = as_id (value_at "clientId" prefs);
}

-- The object that is stored; an absent key is none.
pub record CookieState : Type 0 where
  pub login_state : Option Fields
  pub preferences : Option Fields

abbrev pub empty_state : CookieState
empty_state = record { login_state = none; preferences = none }

-- The body of an object of the bucket: a state, another JSON value that is falsy, or no JSON.
pub data Body : Type 0 where
  state : CookieState → Body
  falsy corrupt : Body

-- What the bucket answers for an id: an object, `NoSuchKey`, or another error.
pub data Object : Type 0 where
  body : Body → Object
  no_such_key failure : Object

abbrev pub Jar : Type 0
Jar = ℕ → Object

pub write : Jar → ℕ → Body → Jar
write jar id b other = if other == id then body b else jar other

-- A deletion that fails is logged, and the object stays.
pub delete : (ℕ → Bool) → Jar → ℕ → Jar
delete can_delete jar id other = if (other == id) && can_delete id then no_such_key else jar other

-- `readCookieFromCookiejar`: the outer none is the rejection, the inner one a falsy state.
unfoldable pub read_cookie_from_cookiejar : Object → Option (Option CookieState)
read_cookie_from_cookiejar (body (state s)) = some (some s)
read_cookie_from_cookiejar (body falsy) = some none
read_cookie_from_cookiejar (body corrupt) = some (some empty_state)
read_cookie_from_cookiejar no_such_key = some (some empty_state)
read_cookie_from_cookiejar failure = none

-- The attributes of the request that the two handlers share.
pub record Request : Type 0 where
  pub login_state : LoginState
  pub preferences : Preferences
  pub cookie_state : CookieState
  pub cookie_id : Option ℕ
  pub force_new_cookie_id : Bool

abbrev pub with_csrf : ℕ → Fields
with_csrf token = field "csrfToken" (number token) end

-- The attributes for a cookie state and the id that goes with it; `token` is `newCsrfToken()`.
unfoldable pub make_request : ℕ → CookieState → Option ℕ → Request
unfolding login_state_of preferences_of
make_request token cookie_state new_cookie_id = record {
  login_state =
      new_login_state (login_state_of (get_or cookie_state.login_state (with_csrf token)));
  preferences = preferences_of (get_or cookie_state.preferences end);
  cookie_state = cookie_state;
  cookie_id = new_cookie_id;
  force_new_cookie_id = false;
}

-- `[cookieState || {}, cookieState ? cookieId : null]`.
unfoldable pub jar_pair : ℕ → Option CookieState → CookieState × Option ℕ
jar_pair id none = (empty_state, none)
jar_pair id (some s) = (s, some id)

-- `readRequestCookies`; none is `next(err)`.
unfoldable pub read_request_cookies : (ℕ → Bool) → Jar → ℕ → Option ℕ → Option Request
unfolding read_cookie_from_cookiejar jar_pair make_request
read_request_cookies valid jar token none = some (make_request token empty_state none)
read_request_cookies valid jar token (some id) =
    if valid id
    then elim (read_cookie_from_cookiejar (jar id)) [
      | none ↦ none
      | some found ↦ let pair = jar_pair id found in some (make_request token pair.0 pair.1)
    ]
    else some (make_request token empty_state none)

-- As it is stored. `json` keeps an undefined key, for which the code may write again what the bucket
-- has already.
unfoldable pub cookie_state_of : Request → CookieState
unfolding to_json preferences_json
cookie_state_of req = record {
  login_state = some (to_json req.login_state);
  preferences = some (preferences_json req.preferences);
}

-- `cookieId` of the response, given `newRandomCookieId()`.
pub response_cookie_id : ℕ → Request → ℕ
response_cookie_id new_id req =
    if not (is_some req.cookie_id) || req.force_new_cookie_id
    then new_id
    else get_or req.cookie_id new_id

abbrev same_id : Option ℕ → ℕ → Bool
same_id none id = false
same_id (some old) id = old == id

-- `putCookieInCookiejar`, unless nothing has changed.
pub store_state : (CookieState → CookieState → Bool) → Jar → ℕ → Request → Jar
unfolding cookie_state_of
store_state is_equal jar id req =
    if same_id req.cookie_id id && is_equal (cookie_state_of req) req.cookie_state
    then jar
    else write jar id (state (cookie_state_of req))

abbrev is_valid_old : (ℕ → Bool) → Option ℕ → ℕ → Bool
is_valid_old valid none id = false
is_valid_old valid (some old) id = valid old && not (old == id)

-- `setResponseCookies`, where the bucket takes what is written: the jar, and the id in the cookie.
pub set_response_cookies :
    (ℕ → Bool) → (CookieState → CookieState → Bool) → (ℕ → Bool) → Jar → ℕ → Request → Jar × ℕ
unfolding store_state response_cookie_id write delete
set_response_cookies valid is_equal can_delete jar new_id req =
    let id = response_cookie_id new_id req in
    let stored = store_state is_equal jar id req in
    (
      (if is_valid_old valid req.cookie_id id
          then delete can_delete stored (get_or req.cookie_id id)
          else stored),
      id,
    )
