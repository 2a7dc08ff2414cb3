-- ===== src/Task/Update/Apply.antt =====
-- The `switch` of `updateTaskUtil` in svc-task/thandle/thandle.go: what an update request makes of a
-- task, with the id and the text of the event that reports it.
use hwmgmt_device_mgr_device.Base.{
  String, Bool, not, ◌&&◌, ◌||◌, Option, none, some, eq_ℕ, ◌==◌, if◌then◌else◌,
}
use hwmgmt_device_mgr_device.Base.Text.{◌<>◌, show}
use hwmgmt_device_mgr_device.Base.Exec.{Outcome, ok, err}
use hwmgmt_device_mgr_device.Task.Model.{
  Task, Time, ProtoPayload, UpdateTaskRequest, task_event_type,
}

-- The cases of the `switch`; `invalid` is its `default`.
pub data Case : Type 0 where
  completed killed cancelled exception cancelling interrupted new pending running : Case
  service starting stopping suspended invalid : Case

unfoldable pub case_of : String → Case
case_of s =
    if s == "Completed"
    then completed
    else if s == "Killed"
    then killed
    else if s == "Cancelled"
    then cancelled
    else if s == "Exception"
    then exception
    else if s == "Cancelling"
    then cancelling
    else if s == "Interrupted"
    then interrupted
    else if s == "New"
    then new
    else if s == "Pending"
    then pending
    else if s == "Running"
    then running
    else if s == "Service"
    then service
    else if s == "Starting"
    then starting
    else if s == "Stopping"
    then stopping
    else if s == "Suspended"
    then suspended
    else invalid

-- What a case leaves: the task, the event's message id and its text.
pub record Change : Type 0 where
  pub task : Task
  pub message_id : String
  pub text : String

abbrev pub invalid_status : String
invalid_status = "error invalid taskStatus provided as input argument"

abbrev pub invalid_end_time : String
invalid_end_time = "error invalid end time for the task"

-- `if payLoad != nil` where the whole payload is taken over.
abbrev with_payload : Option ProtoPayload → Task → Task
with_payload none t = t
with_payload (some p) t = record t {
  payload = record {
    http_headers = p.http_headers;
    http_operation = p.http_operation;
    json_body = p.json_body;
    target_uri = p.target_uri;
  };
  status_code = p.status_code;
  task_response = p.response_body;
}

-- `if payLoad != nil` where only the status code is taken over.
abbrev with_status_code : Option ProtoPayload → Task → Task
with_status_code none t = t
with_status_code (some p) t = record t { status_code = p.status_code }

abbrev is_final_status : String → Bool
is_final_status s = s == "Critical" || s == "Warning"

-- The guards of the four final states, in their order: the status, then the end time.
abbrev finish : Bool → Time → Change → Outcome String Change
finish status end change =
    if status then (if eq_ℕ end 0 then err invalid_end_time else ok change) else err invalid_status

-- `case "Completed"`
apply_completed : UpdateTaskRequest → Task → Outcome String Change
apply_completed r t =
    finish (r.task_status == "Critical" || r.task_status == "Warning" || r.task_status == "OK")
      r.end_time
      (record {
        task =
            record (with_payload r.pay_load (record t {
              task_state = r.task_state;
              task_status = r.task_status;
              end_time = r.end_time;
            })) { percent_complete = r.percent_complete };
        message_id = task_event_type <> ".Task" <> r.task_state <> r.task_status;
        text = "The task with Id " <> r.task_id <> " has completed.";
      })

-- `case "Killed"`
apply_killed : UpdateTaskRequest → Task → Outcome String Change
apply_killed r t = finish (is_final_status r.task_status) r.end_time (record {
  task =
      record (with_status_code r.pay_load (record t {
        task_state = r.task_state;
        task_status = r.task_status;
        percent_complete = r.percent_complete;
      })) { end_time = r.end_time };
  message_id = task_event_type <> ".TaskAborted";
  text = "The task with Id " <> r.task_id <> " has completed with errors.";
})

-- `case "Cancelled"`
apply_cancelled : UpdateTaskRequest → Task → Outcome String Change
apply_cancelled r t = finish (is_final_status r.task_status) r.end_time (record {
  task =
      record (with_status_code r.pay_load (record t {
        task_state = r.task_state;
        task_status = r.task_status;
        percent_complete = r.percent_complete;
      })) { end_time = r.end_time };
  message_id = task_event_type <> ".Task" <> r.task_state;
  text =
      "Work on the task with Id " <> r.task_id
      <> " has been halted prior to completion due to an explicit request.";
})

-- `case "Exception"`
apply_exception : UpdateTaskRequest → Task → Outcome String Change
apply_exception r t = finish (is_final_status r.task_status) r.end_time (record {
  task =
      record (with_payload r.pay_load (record t {
        task_state = r.task_state;
        task_status = r.task_status;
        end_time = r.end_time;
      })) { percent_complete = r.percent_complete };
  message_id = task_event_type <> ".Task" <> r.task_state <> r.task_status;
  text = "The task with Id " <> r.task_id <> " has completed with errors.";
})

-- The cases that set the state alone.
abbrev state_only : String → UpdateTaskRequest → Task → Outcome String Change
state_only ending r t = ok (record {
  task = record t { task_state = r.task_state };
  message_id = task_event_type <> ".Task" <> r.task_state;
  text = "The task with Id " <> r.task_id <> ending;
})

-- `case "Cancelling"`
apply_cancelling : UpdateTaskRequest → Task → Outcome String Change
apply_cancelling r t = ok (record {
  task = record t { task_state = r.task_state };
  message_id = task_event_type <> ".Task" <> r.task_state;
  text =
      "Work on the task with Id " <> r.task_id
      <> " has been halted prior to completion due to an explicit request.";
})

-- `case "Interrupted"`
apply_interrupted : UpdateTaskRequest → Task → Outcome String Change
apply_interrupted r t = ok (record {
  task = record (with_status_code r.pay_load (record t { task_state = r.task_state })) {
    percent_complete = r.percent_complete;
  };
  message_id = task_event_type <> ".Task" <> r.task_state;
  text = "The task with Id " <> r.task_id <> " has completed with errors..";
})

-- `case "New"`
apply_new : UpdateTaskRequest → Task → Outcome String Change
apply_new r t = ok (record {
  task = record t { task_state = r.task_state; percent_complete = r.percent_complete };
  message_id = task_event_type <> ".Task" <> r.task_state;
  text = "The task with Id " <> r.task_id <> " has started.";
})

-- `case "Running"`
apply_running : UpdateTaskRequest → Task → Outcome String Change
apply_running r t = ok (record {
  task = record t { task_state = r.task_state; percent_complete = r.percent_complete };
  message_id = task_event_type <> ".TaskProgressChanged";
  text =
      "The task with Id "
      <> r.task_id
      <> " has changed to progress "
      <> show r.percent_complete
      <> " percent complete.";
})

unfoldable pub apply_case : Case → UpdateTaskRequest → Task → Outcome String Change
unfolding apply_completed apply_killed apply_cancelled apply_exception apply_cancelling
    apply_interrupted apply_new apply_running
apply_case completed r t = apply_completed r t
apply_case killed r t = apply_killed r t
apply_case cancelled r t = apply_cancelled r t
apply_case exception r t = apply_exception r t
apply_case cancelling r t = apply_cancelling r t
apply_case interrupted r t = apply_interrupted r t
apply_case new r t = apply_new r t
apply_case pending r t = state_only " has completed with errors." r t
apply_case running r t = apply_running r t
apply_case service r t = state_only " has started." r t
apply_case starting r t = state_only " has started." r t
apply_case stopping r t = state_only " has been paused." r t
apply_case suspended r t = state_only " has completed with errors." r t
apply_case invalid r t = err "error invalid input argument for taskState"

-- The guards on the stored state, and then the `switch`.
unfoldable pub apply_update : UpdateTaskRequest → Task → Outcome String Change
apply_update r t =
    if t.task_state == "Cancelled"
    then err "Cancelled"
    else if t.task_state == "Cancelling" && not (r.task_state == "Cancelled")
    then err "Cancelling"
    else apply_case (case_of r.task_state) r t
