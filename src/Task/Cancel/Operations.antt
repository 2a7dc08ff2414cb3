-- ===== src/Task/Cancel/Operations.antt =====
-- `deleteCompletedTask`, `taskCancelCallBack`, `asyncTaskDelete` and `OverWriteCompletedTaskUtil` of
-- svc-task/thandle/thandle.go.
use hwmgmt_device_mgr_device.Base.{
  String, ℕ, ◌+◌, Bool, ◌||◌, Option, none, some, List, [], ◌∷◌, get_elem?, ltb, ◌==◌,
  if◌then◌else◌,
}
use hwmgmt_device_mgr_device.Base.Text.{split_colons}
use hwmgmt_device_mgr_device.Base.Exec.{ok, err, panic, Exec, pure, ◌>>=◌, ◌>>◌}
use hwmgmt_device_mgr_device.Task.Model.{Task, cancelled, cancelling, completed, exception, pending}
use hwmgmt_device_mgr_device.Task.Service.{TasksRpc}

-- A call whose error is logged and then dropped.
abbrev pub ignore : {W : Type 0} → Exec W String (Unit {0}) → Exec W String (Unit {0})
ignore m w = let (r, w') = m w in (elim r [ ok _ ↦ ok tt | err _ ↦ ok tt | panic p ↦ panic p ], w')

-- A task that a cancel request deletes at once.
abbrev pub settled : Task → Bool
settled t = t.task_state == completed || t.task_state == exception || t.task_state == pending

-- What one round of the polling loop finds.
pub data Poll : Type 0 where
  done again : Poll

module _ (ts : TasksRpc) where
  -- A read whose error is logged: `none` stands for the `continue` or `return` that follows.
  abbrev pub try_get : String → Exec ts.World String (Option Task)
  try_get id w =
      let (r, w') = ts.get_task_status_model id w in
      (elim r [ ok t ↦ ok (some t) | err _ ↦ ok none | panic p ↦ panic p ], w')

  -- One round of the loops over the child tasks that delete them.
  abbrev pub delete_sub_task : String → Exec ts.World String (Unit {0})
  delete_sub_task id =
      try_get id >>= elim [ none ↦ pure tt | some t ↦ ignore (ts.delete_task_from_db_model t) ]

  unfoldable pub delete_sub_tasks : List String → Exec ts.World String (Unit {0})
  delete_sub_tasks [] = pure tt
  delete_sub_tasks (id ∷ ids) = delete_sub_task id >> delete_sub_tasks ids

  abbrev delete_stored : String → Option Task → Exec ts.World String (Unit {0})
  delete_stored id none = pure tt
  delete_stored id (some t) =
      delete_sub_tasks t.child_task_ids >> ts.delete_task_from_db_model t >> ts.delete_task_index id

  unfoldable pub delete_completed_task : String → Exec ts.World String (Unit {0})
  delete_completed_task id = try_get id >>= delete_stored id

  -- `if task.TaskState != Cancelling`: the state is written back, and the deletion is left to a
  -- goroutine.
  abbrev pub cancel_task : String → Task → Exec ts.World String (Unit {0})
  cancel_task id t =
      if t.task_state == cancelling
      then pure tt
      else ts.update_task_status_model (record t { task_state = cancelling }) >> λ w.
          (ok tt, ts.go_async_task_delete id w)

  abbrev pub cancel_sub_task : String → Exec ts.World String (Unit {0})
  cancel_sub_task id = try_get id >>= elim [
    | none ↦ pure tt
    | some t ↦ if settled t then ignore (ts.delete_task_from_db_model t) else cancel_task id t
  ]

  unfoldable pub cancel_sub_tasks : List String → Exec ts.World String (Unit {0})
  cancel_sub_tasks [] = pure tt
  cancel_sub_tasks (id ∷ ids) = cancel_sub_task id >> cancel_sub_tasks ids

  unfoldable pub cancel_stored : String → Task → Exec ts.World String (Unit {0})
  cancel_stored id t =
      if settled t
      then delete_sub_tasks t.child_task_ids >> ignore (ts.delete_task_from_db_model t)
      else cancel_sub_tasks t.child_task_ids >> cancel_task id t

  unfoldable pub task_cancel_call_back : String → Exec ts.World String (Unit {0})
  unfolding cancel_stored
  task_cancel_call_back id = try_get id >>= elim [ none ↦ pure tt | some t ↦ cancel_stored id t ]

  -- One round of `asyncTaskDelete`: a read that fails and a deletion, which may fail too, end the
  -- loop.
  unfoldable pub poll : String → Exec ts.World String Poll
  poll id = try_get id >>= elim [
    | none ↦ pure Poll.done
    | some t ↦
        if t.task_state == cancelled
        then ignore (ts.delete_task_from_db_model t) >> pure Poll.done
        else pure Poll.again
  ]

  -- The loop, with what the rest of the system does during each sleep; at the end of that list it is
  -- still polling.
  unfoldable pub async_task_delete : String → List (ts.World → ts.World) → Exec ts.World String Poll
  async_task_delete id [] = poll id
  async_task_delete id (sleep ∷ sleeps) = poll id >>= elim [
    | Poll.done ↦ pure Poll.done
    | Poll.again ↦ λ w. async_task_delete id sleeps (sleep w)
  ]

  -- `timeToLeaveNano`: 24 hours.
  abbrev time_to_leave : ℕ
  time_to_leave = 86_400_000_000_000

  abbrev at_index : List String → ℕ → Exec ts.World String String
  at_index xs i = elim (get_elem? xs i) [
    | some x ↦ pure x
    | none ↦ λ w. (panic "index out of range", w)
  ]

  -- One round of `OverWriteCompletedTaskUtil` on an index entry `UserName::EndTime::TaskID`.
  unfoldable pub over_write_entry : String → Exec ts.World String (Unit {0})
  unfolding delete_completed_task
  over_write_entry value = do
    end_time_string ← at_index (split_colons value) 1
    time_now ← (λ w. let (t, w') = ts.now w in (ok t, w'))
    task_id ← at_index (split_colons value) 2
    if ltb (ts.parse_time end_time_string + time_to_leave) time_now
        then ignore (delete_completed_task task_id)
        else pure tt

  unfoldable pub over_write_entries : List String → Exec ts.World String (Unit {0})
  unfolding over_write_entry
  over_write_entries [] = pure tt
  over_write_entries (v ∷ vs) = over_write_entry v >> over_write_entries vs

  unfoldable pub over_write_completed_task_util : String → Exec ts.World String (Unit {0})
  unfolding over_write_entries
  over_write_completed_task_util user =
      ts.get_completed_tasks_index_model user >>= over_write_entries
