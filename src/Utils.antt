-- ===== src/Utils.antt =====
-- web/js/utils.js: the helpers that the other files share.
pub mod Json
pub mod Color
pub mod Dict
mod Tests
