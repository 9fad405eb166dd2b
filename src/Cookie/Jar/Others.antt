-- ===== src/Cookie/Jar/Others.antt =====
-- web/js/server/express/cookie.js: which objects of the bucket a response touches.
use sigopt_server.Base.{ℕ, ◌≡◌, ◌≢◌, Bool, true, some, arith}
use sigopt_server.Cookie.Jar.{
  Jar, no_such_key, CookieState, Request, set_response_cookies, store_state, response_cookie_id,
  write, delete,
}

module _ (valid : ℕ → Bool) (is_equal : CookieState → CookieState → Bool) (can_delete : ℕ → Bool)
    (jar : Jar) (new_id : ℕ) (req : Request) where
  -- A response changes at most the objects under the request's id and under the response's id. A
  -- forced new id removes the old object, if its id is valid and not the new one and the bucket
  -- does delete it.
  pub set_response_cookies-others :
      let r = set_response_cookies valid is_equal can_delete jar new_id req in
      ((other : ℕ) → other ≢ r.1 → req.cookie_id ≢ some other → r.0 other ≡ jar other)
      × ((old : ℕ)
          → req.cookie_id ≡ some old
          → req.force_new_cookie_id ≡ true
          → valid old ≡ true
          → can_delete old ≡ true
          → old ≢ new_id
          → (r.1 ≡ new_id) × (r.0 old ≡ no_such_key))
  unfolding set_response_cookies store_state response_cookie_id write delete
  set_response_cookies-others =
      ((λ other ne_id ne_old. ground arith), (λ old e force v can ne. ground arith))
