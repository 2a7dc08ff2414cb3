-- ===== src/Session.antt =====
-- svc-account-session: sessions, their time-out, and the authorization of the other services' calls.
pub mod Model
pub mod Operations
pub mod TimeOut
pub mod Authorized
pub mod Views
pub mod CleanUp
pub mod Clock
pub mod Expiry
pub mod Handlers
pub mod Sample
mod Tests
