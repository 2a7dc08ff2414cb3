-- ===== src/Task/Model.antt =====
-- The task record of svc-task/tmodel/tmodel.go, the requests of the task RPCs, and the constants of
-- lib-utilities/common/constants.go that name states and statuses.
use hwmgmt_device_mgr_device.Base.{String, ℤ, ℕ, Bool, List, Option}

-- An instant, in nanoseconds after the zero value of `time.Time`, which is 0.
abbrev pub Time : Type 0
Time = ℕ

abbrev pub zero_time : Time
zero_time = 0

pub record Payload : Type 0 where
  pub http_headers : List (String × String)
  pub http_operation : String
  pub json_body : String
  pub target_uri : String

pub record Message : Type 0 where
  pub message : String
  pub message_id : String
  pub message_args : List String
  pub related_properties : List String
  pub resolution : String
  pub severity : String

pub record Task : Type 0 where
  pub parent_id : String
  pub child_task_ids : List String
  pub id : String
  pub uri : String
  pub user_name : String
  pub name : String
  pub hide_payload : Bool
  pub payload : Payload
  pub percent_complete : ℤ
  pub task_monitor : String
  pub task_state : String
  pub task_status : String
  pub status_code : ℤ
  pub task_response : String
  pub messages : List Message
  pub start_time : Time
  pub end_time : Time

-- `taskproto.Payload`
pub record ProtoPayload : Type 0 where
  pub http_headers : List (String × String)
  pub http_operation : String
  pub json_body : String
  pub status_code : ℤ
  pub target_uri : String
  pub response_body : String

-- `taskproto.UpdateTaskRequest`, its time converted; a nil payload is `none`.
pub record UpdateTaskRequest : Type 0 where
  pub task_id : String
  pub task_state : String
  pub task_status : String
  pub percent_complete : ℤ
  pub pay_load : Option ProtoPayload
  pub end_time : Time

-- `taskproto.GetTaskRequest`
pub record GetTaskRequest : Type 0 where
  pub task_id : String
  pub sub_task_id : String
  pub session_token : String

abbrev pub cancelled : String
cancelled = "Cancelled"

abbrev pub cancelling : String
cancelling = "Cancelling"

abbrev pub completed : String
completed = "Completed"

abbrev pub exception : String
exception = "Exception"

abbrev pub killed : String
killed = "Killed"

abbrev pub pending : String
pending = "Pending"

abbrev pub tasks_uri : String
tasks_uri = "/redfish/v1/TaskService/Tasks/"

abbrev pub task_event_type : String
task_event_type = "TaskEvent.1.0.3"
