-- ===== src/Session/Tests.antt =====
-- web/js/session, web/js/server: the theorems about sessions at small inputs.
use sigopt_server.Base.{
  ℕ, ◌≡◌, ◌≢◌, ◌↔◌, refl, false, true, none, some, [], ◌∷◌, ◌==◌, if◌then◌else◌,
}
use sigopt_server.Session.LoginState.{Frame, LoginState, ApiToken, Client}
use sigopt_server.Session.CurrentUser.{Answer, found, failed, set_current_user}
use sigopt_server.Session.CurrentUser.Fallback.{Settled, set_current_user-Settled}
use sigopt_server.Session.Permissions.{
  ActsForTeam, check_login_state, check_login_state-ActsForTeam,
}
use sigopt_server.Session.Csrf.{check_csrf, check_csrf_iff, logged_out}

abbrev member : Frame
member = record {
  api_token = some 5;
  client_id = some 1;
  csrf_token = some 77;
  is_guest = none;
  organization_id = some 2;
  user_id = some 9;
}

abbrev expired : Frame
expired = record member { api_token = some 6; user_id = some 8 }

abbrev signed_in : LoginState
signed_in = record { own = member; parents = [] }

abbrev guest : ApiToken
guest = record {
  token = 30;
  client = some 1;
  organization = some 2;
  user = none;
  is_guest_type = true;
}

-- The API knows the token 5 alone.
abbrev api : Frame → Answer ℕ
api f = elim f.api_token [ none ↦ failed 401 | some t ↦ if t == 5 then found 9 else failed 403 ]

abbrev expired_over_member : LoginState
expired_over_member = record { own = expired; parents = member ∷ [] }

set_current_user-Settled_example :
    Settled api expired_over_member (set_current_user api false expired_over_member)
set_current_user-Settled_example = set_current_user-Settled api expired_over_member refl

abbrev team : Client
team = record { id = 4; organization = 2 }

check_login_state-ActsForTeam_example :
    ActsForTeam signed_in (team ∷ []) (check_login_state signed_in (team ∷ []))
check_login_state-ActsForTeam_example = check_login_state-ActsForTeam signed_in team []

check_csrf_iff_example :
    let r = check_csrf true none (some 77) signed_in in
    ((r.1 ≡ none) ↔ ((given : ℕ) × (some 77 ≡ some given) × (some 77 ≡ some given)))
    × ((r.1 ≡ none → r.0 ≡ signed_in) × (r.1 ≢ none → r.0 ≡ logged_out))
check_csrf_iff_example = check_csrf_iff none (some 77) signed_in refl
