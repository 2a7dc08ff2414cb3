-- ===== src/Session/Handlers.antt =====
-- The handlers of svc-account-session/session.
pub mod Access
pub mod Operations
pub mod Listing
pub mod Create
pub mod Caller
pub mod Opened
pub mod Deleted
pub mod Visible
mod Tests
