-- ===== src/Task/Tests.antt =====
-- The theorems of the task service at concrete inputs.
use hwmgmt_device_mgr_device.Base.{
  pos, ◌≡◌, refl, ◌≢◌, inl, inr, none, some, [], ◌∷◌, arith, eq_iff,
}
use hwmgmt_device_mgr_device.Base.Exec.{ok, err, panic}
use hwmgmt_device_mgr_device.Task.Model.{Task, UpdateTaskRequest, GetTaskRequest}
use hwmgmt_device_mgr_device.Task.Sample.{sample, sample_store, task1, one_task}
use hwmgmt_device_mgr_device.Task.Update.Apply.{Change, apply_case, apply_update, case_of}
use hwmgmt_device_mgr_device.Task.Update.Rules.{SameIdentity, Admits, apply_update-ok}
use hwmgmt_device_mgr_device.Task.Update.Final.{MayEnd, Ended, final-ok, final-accepted}
use hwmgmt_device_mgr_device.Task.Update.Operation.{update_task_util}
use hwmgmt_device_mgr_device.Task.Update.Stored.{Changed, update_task_util-Changed}
use hwmgmt_device_mgr_device.Task.Update.Irrevocable.{
  updates, updates-cancelled, IsStopping, updates-IsStopping,
}
use hwmgmt_device_mgr_device.Base.{if◌then◌else◌}
use hwmgmt_device_mgr_device.Response.{Rpc, view, create_generic_response}
use hwmgmt_device_mgr_device.Response.Messages.{status_ok, status_accepted}
use hwmgmt_device_mgr_device.Task.Views.{View, TaskView}
use hwmgmt_device_mgr_device.Task.Handlers.Build.{is_over, task_response}
use hwmgmt_device_mgr_device.Task.Handlers.Access.{is_ok, validate_and_autherize}
use hwmgmt_device_mgr_device.Task.Handlers.Granted.{Granted}
use hwmgmt_device_mgr_device.Task.Handlers.Operations.{
  get_tasks, get_task_monitor, own_view, task_collection,
}
use hwmgmt_device_mgr_device.Task.Handlers.Answers.{
  get_tasks-Granted, some_read_fails, task_collection-panic,
}
use hwmgmt_device_mgr_device.Task.Handlers.Monitor.{Monitored, get_task_monitor-Monitored}

abbrev done : UpdateTaskRequest
done = record {
  task_id = "task1";
  task_state = "Completed";
  task_status = "OK";
  percent_complete = pos 100;
  pay_load = none;
  end_time = 5;
}

abbrev completed_task : Task
completed_task = record task1 {
  task_state = "Completed";
  task_status = "OK";
  end_time = 5;
  percent_complete = pos 100;
}

abbrev completed_change : Change
completed_change = record {
  task = completed_task;
  message_id = "TaskEvent.1.0.3.TaskCompletedOK";
  text = "The task with Id task1 has completed.";
}

done_lem : apply_update done task1 ≡ ok completed_change
unfolding apply_update apply_case case_of
done_lem = refl

apply_update-ok_example :
    (completed_task.task_state ≡ "Completed") × SameIdentity task1 completed_task
apply_update-ok_example = apply_update-ok done task1 done_lem

final-ok_example : MayEnd "Completed" "OK" × (done.end_time ≢ 0) × Ended done completed_task
final-ok_example = final-ok done task1 (inl refl) done_lem

task1-Admits : Admits done task1
task1-Admits = record { not_cancelled = λ e. absurd (ne e); only_cancelled = λ e. absurd (ne' e) }
  where
    ne : task1.task_state ≢ "Cancelled"
    ne = ground (arith, eq_iff "Running" "Cancelled")

    ne' : task1.task_state ≢ "Cancelling"
    ne' = ground (arith, eq_iff "Running" "Cancelling")

final-accepted_example : (c : Change) × (apply_update done task1 ≡ ok c)
final-accepted_example =
    final-accepted done task1 task1-Admits (inl (refl, inr (inr refl))) (omega arith)

abbrev stopped : Task
stopped = record task1 { task_state = "Cancelled" }

refused : apply_update done stopped ≡ err "Cancelled"
unfolding apply_update
refused = refl

update_task_util-Changed_example :
    Changed sample (one_task task1) done (update_task_util sample done (one_task task1)).1
unfolding update_task_util apply_update apply_case case_of
update_task_util-Changed_example =
    update_task_util-Changed sample sample_store done (one_task task1)

updates-cancelled_example :
    updates sample sample_store (done ∷ done ∷ []) (one_task stopped) "task1" ≡ some stopped
updates-cancelled_example =
    updates-cancelled sample sample_store (done ∷ done ∷ []) (one_task stopped) "task1" refl refl

abbrev stopping : Task
stopping = record task1 { task_state = "Cancelling" }

updates-IsStopping_example :
    (t : Task) × (updates sample sample_store (done ∷ done ∷ []) (one_task stopping) "task1"
      ≡ some t)
    × IsStopping t
updates-IsStopping_example =
    updates-IsStopping sample sample_store (done ∷ done ∷ []) (one_task stopping) "task1" refl
      (inl refl)

abbrev request : GetTaskRequest
request = record { task_id = "task1"; sub_task_id = ""; session_token = "t" }

abbrev running_answer : Rpc View
running_answer = record {
  status_code = pos 202;
  status_message = "Success";
  header =
      ("Date", "")
      ∷ ("Link", "</redfish/v1/SchemaStore/en/TaskCollection.json/>; rel=describedby")
      ∷ ("location", "/taskmon/task1")
      ∷ [];
  body = view (
      View.task (
        own_view task1 (record (task_response task1) {
          message_id = "Base.1.11.0.Success";
          severity = "OK";
          message = "Successfully Completed Request";
        })));
}

running_lem : (get_tasks sample request (one_task task1)).0 ≡ ok running_answer
unfolding get_tasks validate_and_autherize is_ok create_generic_response is_over
running_lem = refl

get_tasks-Granted_example :
    (t : Task) × Granted sample "t" "task1" (one_task task1) t
    × (v : TaskView) × (running_answer.body ≡ view (View.task v))
    × (v.task_state ≡ t.task_state)
    × (v.percent_complete ≡ t.percent_complete)
    × (pos 202 ≡ (if is_over t then status_ok else status_accepted))
get_tasks-Granted_example = get_tasks-Granted sample request (one_task task1) running_lem

task_collection-panic_example :
    (task_collection sample request (one_task task1)).0
    ≡ panic "error: messageArgs doesn't match the expected count"
unfolding is_ok some_read_fails
task_collection-panic_example =
    task_collection-panic sample request (one_task task1) ("task1" ∷ "task2" ∷ []) "alice" refl refl
      refl refl refl

abbrev others_task : Task
others_task = record completed_task {
  user_name = "bob";
  task_response = "{}";
  status_code = pos 200;
}

abbrev finished : Rpc View
finished = record {
  status_code = pos 200;
  status_message = "";
  header = [];
  body = view (View.raw "{}");
}

get_task_monitor-Monitored_example :
    Monitored sample request.session_token request.task_id (one_task others_task) finished
unfolding get_task_monitor is_ok is_over
get_task_monitor-Monitored_example =
    get_task_monitor-Monitored sample request (one_task others_task) {rpc = finished} refl
