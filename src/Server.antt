-- ===== src/Server.antt =====
-- web/js/server/express: the order of the middleware, and how a request is answered.
pub mod Stack
pub mod Handlers
pub mod App
pub mod Documented
pub mod Answered
pub mod Refused
mod Tests
