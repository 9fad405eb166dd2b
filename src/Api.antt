-- ===== src/Api.antt =====
-- web/js/api: calls of the API.
pub mod Requestor
mod Tests
