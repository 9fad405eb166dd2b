-- ===== src/Session/LoginState/Stack.antt =====
-- web/js/session: the stack of parent states.
use sigopt_server.Base.{
  ℕ, suc, ◌≤◌, ◌≡◌, refl, true, false, Option, some, List, [], ◌∷◌, length, All, ap, ◌∙◌, arith,
}
use sigopt_server.Session.LoginState.{
  LoginState, ApiToken, pop_login_state, set_login_state_from_token, guest_token,
}

-- Ending a guest session brings back the state from before, parents included, when that state was
-- logged in with a token that is no guest's; the API requestor gets its token back.
pub pop-set_login_state_from_token :
    (s : LoginState) (new_api_token : ApiToken) (current : Option ApiToken) (token : ℕ)
    → s.api_token ≡ some token
    → guest_token current ≡ false
    → pop_login_state (set_login_state_from_token s new_api_token current true)
      ≡ some (s, some token)
unfolding pop_login_state set_login_state_from_token
pop-set_login_state_from_token s new_api_token current token e g = ground arith

-- Opening guest links one after another: each request's current token is the one taken before.
pub visit_guests : LoginState → Option ApiToken → List ApiToken → LoginState
visit_guests s current [] = s
visit_guests s current (t ∷ ts) =
    visit_guests (set_login_state_from_token s t current true) (some t) ts

replaced :
    (s : LoginState) (current t : ApiToken)
    → current.is_guest_type ≡ true
    → (set_login_state_from_token s t (some current) true).parents ≡ s.parents
unfolding set_login_state_from_token
replaced s current t g = ground arith

-- A guest session is replaced, not stacked.
guest-parents :
    (s : LoginState) (current : ApiToken) (ts : List ApiToken)
    → current.is_guest_type ≡ true
    → All (λ t. t.is_guest_type ≡ true) ts
    → (visit_guests s (some current) ts).parents ≡ s.parents
unfolding visit_guests
guest-parents s current [] g gs = refl
guest-parents s current (t ∷ ts) g (h, hs) =
    guest-parents (set_login_state_from_token s t (some current) true) t ts h hs
    ∙ replaced s current t g

length-pushed :
    (s : LoginState) (current : Option ApiToken) (t : ApiToken)
    → length (set_login_state_from_token s t current true).parents ≤ suc (length s.parents)
unfolding set_login_state_from_token
length-pushed s current t = ground arith

-- However many guest links are opened in turn, at most one parent state is saved.
length-visit_guests :
    (s : LoginState) (current : Option ApiToken) (ts : List ApiToken)
    → All (λ t. t.is_guest_type ≡ true) ts
    → length (visit_guests s current ts).parents ≤ suc (length s.parents)
unfolding visit_guests
length-visit_guests s current [] gs = omega arith
length-visit_guests s current (t ∷ ts) (g, gs) = omega (
  arith,
  ap length (guest-parents (set_login_state_from_token s t current true) t ts g gs),
  length-pushed s current t,
)
