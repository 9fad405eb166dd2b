-- ===== src/Organization.antt =====
-- web/js/pages/organization: the pages on which an organization's owners and admins manage its users.
pub mod Users
pub mod PermissionsEditor
pub mod Rows
pub mod Edits
pub mod InSync
pub mod Mounted
mod Tests
