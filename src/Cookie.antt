-- ===== src/Cookie.antt =====
-- web/js/server/cookie and web/js/server/express/cookie.js: the session cookie and its jar.
pub mod CookieId
pub mod Jar
mod Tests
