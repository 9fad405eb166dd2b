-- ===== src/Session.antt =====
-- web/js/session and the middleware of web/js/server/express that works on the login state.
pub mod LoginState
pub mod CurrentUser
pub mod Permissions
pub mod Csrf
pub mod UrlMatch
mod Tests
