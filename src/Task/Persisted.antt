-- ===== src/Task/Persisted.antt =====
-- Tasks that svc-task/tmodel/tmodel.go stores in the in-memory database and reads back.
pub mod Read
pub mod Written
mod Tests
