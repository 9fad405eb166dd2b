-- ===== src/Component.antt =====
-- web/js/component: the components that grant submitting and editing.
pub mod Editable
mod Tests
