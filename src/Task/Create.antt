-- ===== src/Task/Create.antt =====
-- Creating tasks and child tasks in svc-task/thandle/thandle.go.
mod Operations
pub mod ChildId
pub mod Created
pub mod Linked
mod Tests
unfoldable pub use Operations.{new_task, child_id_of_uri, create_task_util, create_child_task_util}
