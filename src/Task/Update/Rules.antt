-- ===== src/Task/Update/Rules.antt =====
-- What an accepted update of a task guarantees, and how the state of a task can move under any
-- sequence of updates.
use hwmgmt_device_mgr_device.Base.{◌≡◌, ◌≢◌, arith, eq_iff}
use hwmgmt_device_mgr_device.Base.Exec.{ok}
use hwmgmt_device_mgr_device.Task.Model.{Task, UpdateTaskRequest}
use hwmgmt_device_mgr_device.Task.Update.Apply.{Case, case_of, Change, apply_case, apply_update}

-- The fields that say which task it is, who owns it and where it hangs.
pub record SameIdentity (a b : Task) : Type 0 where
  pub id : b.id ≡ a.id
  pub parent_id : b.parent_id ≡ a.parent_id
  pub child_task_ids : b.child_task_ids ≡ a.child_task_ids
  pub uri : b.uri ≡ a.uri
  pub user_name : b.user_name ≡ a.user_name
  pub name : b.name ≡ a.name
  pub task_monitor : b.task_monitor ≡ a.task_monitor
  pub start_time : b.start_time ≡ a.start_time

apply_case-SameIdentity :
    (k : Case) (r : UpdateTaskRequest) (t : Task) {c : Change}
    → apply_case k r t ≡ ok c
    → SameIdentity t c.task
unfolding apply_case
apply_case-SameIdentity Case.completed r t h = ground arith
apply_case-SameIdentity _ r t h = ground arith

apply_case-task_state :
    (k : Case) (r : UpdateTaskRequest) (t : Task) {c : Change}
    → apply_case k r t ≡ ok c
    → c.task.task_state ≡ r.task_state
unfolding apply_case
apply_case-task_state Case.completed r t h = ground arith
apply_case-task_state _ r t h = ground arith

-- The guards let a request through to the `switch` only from a state that may change.
pub record Admits (r : UpdateTaskRequest) (t : Task) : Type 0 where
  pub not_cancelled : t.task_state ≢ "Cancelled"
  pub only_cancelled : t.task_state ≡ "Cancelling" → r.task_state ≡ "Cancelled"

pub apply_update-Admits :
    (r : UpdateTaskRequest) (t : Task) {c : Change}
    → apply_update r t ≡ ok c
    → Admits r t × (apply_case (case_of r.task_state) r t ≡ ok c)
unfolding apply_update
apply_update-Admits r t h = ground (
  arith,
  eq_iff t.task_state "Cancelled",
  eq_iff t.task_state "Cancelling",
  eq_iff r.task_state "Cancelled",
)

pub Admits-apply_update :
    (r : UpdateTaskRequest) (t : Task)
    → Admits r t
    → apply_update r t ≡ apply_case (case_of r.task_state) r t
unfolding apply_update
Admits-apply_update r t a = ground (
  arith,
  eq_iff t.task_state "Cancelled",
  eq_iff t.task_state "Cancelling",
  eq_iff r.task_state "Cancelled",
)

-- An accepted update puts the requested state into the task, and changes neither its identity, nor
-- its owner, nor its place in the task tree.
pub apply_update-ok :
    (r : UpdateTaskRequest) (t : Task) {c : Change}
    → apply_update r t ≡ ok c
    → (c.task.task_state ≡ r.task_state) × SameIdentity t c.task
apply_update-ok r t h =
    let k = (apply_update-Admits r t h).1 in
    (apply_case-task_state _ r t k, apply_case-SameIdentity _ r t k)
