-- ===== src/Role.antt =====
-- svc-account-session/role: user roles.
pub mod Operations
pub mod Checked
pub mod Created
mod Tests
