-- ===== src/Task/Update.antt =====
-- Updating a task: the pure change, and the operation on the store.
pub mod Apply
pub mod Rules
pub mod Operation
pub mod Stored
pub mod Irrevocable
pub mod Final
