-- ===== src/Account.antt =====
-- svc-account-session/account: user accounts.
pub mod Password
pub mod Strong
pub mod Model
pub mod Operations
pub mod Changes
pub mod Checked
pub mod Stored
pub mod Allowed
pub mod Changed
mod Tests
