-- ===== src/Task/Cancel.antt =====
-- Deleting and cancelling tasks in svc-task/thandle/thandle.go.
mod Operations
pub mod Narrowed
pub mod Effects
pub mod Finished
mod Tests
pub use Operations.{Poll}
unfoldable pub use Operations.{
  try_get, ignore, delete_sub_task, delete_sub_tasks, delete_completed_task, settled, cancel_task,
  cancel_sub_task, cancel_sub_tasks, cancel_stored, task_cancel_call_back, poll, async_task_delete,
  over_write_entry, over_write_entries, over_write_completed_task_util,
}
