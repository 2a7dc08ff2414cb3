-- ===== src/Task/Handlers.antt =====
-- The task RPCs that answer with a Redfish view, in svc-task/thandle.
pub mod Build
pub mod Access
pub mod Operations
pub mod Granted
pub mod Monitor
pub mod Answers
pub mod Owned
pub mod Deletion
mod Tests
