-- ===== src/Task.antt =====
-- svc-task: the tasks that the other services run, their life cycle and the Redfish views of them.
pub mod Model
pub mod Views
pub mod Service
pub mod Database
pub mod Persisted
pub mod Update
pub mod Cancel
pub mod Create
pub mod Handlers
pub mod Sample
mod Tests
