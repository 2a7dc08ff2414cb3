-- ===== src/Task/Cancel/Tests.antt =====
-- The theorems on deletion and cancellation at a parent with one child.
use hwmgmt_device_mgr_device.Base.{◌≡◌, refl, ◌≢◌, ◌⊎◌, none, some, [], ◌∷◌, arith, eq_iff}
use hwmgmt_device_mgr_device.Base.Exec.{ok}
use hwmgmt_device_mgr_device.Task.Model.{Task}
use hwmgmt_device_mgr_device.Task.Service.{Store, put, remove}
use hwmgmt_device_mgr_device.Task.Sample.{sample, sample_store, task1}
use hwmgmt_device_mgr_device.Task.Cancel.Operations.{
  Poll, cancel_stored, delete_sub_tasks, cancel_sub_tasks, delete_completed_task,
  task_cancel_call_back, poll, async_task_delete,
}
use hwmgmt_device_mgr_device.Task.Cancel.Narrowed.{as_cancelling}
use hwmgmt_device_mgr_device.Task.Cancel.Effects.{
  CancelRequested, task_cancel_call_back-CancelRequested,
}
use hwmgmt_device_mgr_device.Task.Cancel.Finished.{
  async_task_delete-again, async_task_delete-remove, delete_completed_task-none,
  task_cancel_call_back-cancelling,
}

abbrev parent : Task
parent = record task1 { child_task_ids = "task2" ∷ [] }

abbrev child : Task
child = record task1 { id = "task2"; parent_id = "task1"; task_state = "Completed" }

abbrev family : Task → Store
family p = put p (put child (λ _. none))

task_cancel_call_back-CancelRequested_example :
    let s' = (task_cancel_call_back sample "task1" (family parent)).1 in
    (s' ≡ family parent) ⊎ CancelRequested "task1" (family parent) s'
task_cancel_call_back-CancelRequested_example =
    task_cancel_call_back-CancelRequested sample sample_store "task1" (family parent)

abbrev aborted : Task
aborted = record parent { task_state = "Killed" }

task_cancel_call_back-cancelling_example :
    (task_cancel_call_back sample "task1" (family aborted)).1 "task1" ≡ some (as_cancelling aborted)
unfolding task_cancel_call_back cancel_stored cancel_sub_tasks
task_cancel_call_back-cancelling_example =
    task_cancel_call_back-cancelling sample sample_store "task1" (family aborted) refl refl
      (ground (arith, eq_iff "Killed" "Cancelling")) refl

delete_completed_task-none_example :
    (delete_completed_task sample "task1" (family parent)).1 "task1" ≡ none
unfolding delete_completed_task delete_sub_tasks
delete_completed_task-none_example =
    delete_completed_task-none sample sample_store "task1" (family parent) refl refl

abbrev cancel_it : Store → Store
cancel_it = put (record parent { task_state = "Cancelled" })

async_task_delete-again_example :
    (t : Task) × ((async_task_delete sample "task1" ((λ w. w) ∷ []) (family parent)).1 "task1"
      ≡ some t)
    × (t.task_state ≢ "Cancelled")
unfolding async_task_delete poll
async_task_delete-again_example =
    async_task_delete-again sample sample_store "task1" ((λ w. w) ∷ []) (family parent) refl

async_task_delete-remove_example :
    let (o, w') =
      async_task_delete sample "task1" ((λ w. w) ∷ cancel_it ∷ (λ w. w) ∷ []) (family parent) in
    (o ≡ ok Poll.done) × (w' ≡ remove "task1" (cancel_it (family parent)))
unfolding async_task_delete poll
async_task_delete-remove_example =
    async_task_delete-remove sample sample_store "task1" ((λ w. w) ∷ []) ((λ w. w) ∷ []) cancel_it
      (family parent) refl refl refl refl
