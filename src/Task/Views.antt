-- ===== src/Task/Views.antt =====
-- svc-task/tresponse/task.go: the bodies of the task responses, before they are marshalled. A nil
-- pointer and a field that `omitempty` drops are kept as values.
use hwmgmt_device_mgr_device.Base.{String, ℤ, ℕ, Bool, List, Option}
use hwmgmt_device_mgr_device.Response.{Response}
use hwmgmt_device_mgr_device.Task.Model.{Time}

-- `tresponse.Payload`: its headers are "key: value" lines.
pub record PayloadView : Type 0 where
  pub http_headers : List String
  pub http_operation : String
  pub json_body : String
  pub target_uri : String

-- `tresponse.Messages` without the fields that no handler fills.
pub record MessageView : Type 0 where
  pub message_id : String
  pub related_properties : List String
  pub message : String
  pub message_args : List String
  pub severity : String

-- `tresponse.Task`
pub record TaskView : Type 0 where
  pub response : Response
  pub task_state : String
  pub start_time : Time
  pub end_time : Time
  pub task_status : String
  pub sub_tasks : Option String
  pub task_monitor : String
  pub percent_complete : ℤ
  pub payload : PayloadView
  pub messages : List MessageView

-- `tresponse.SubTask`
pub record SubTaskView : Type 0 where
  pub response : Response
  pub members_count : ℕ
  pub members : List String
  pub task_state : String
  pub start_time : Time
  pub end_time : Time
  pub task_status : String
  pub task_monitor : String
  pub percent_complete : ℤ
  pub payload : PayloadView
  pub messages : List MessageView

-- `tresponse.TaskCollectionResponse`
pub record CollectionView : Type 0 where
  pub response : Response
  pub members_count : ℕ
  pub members : List String

-- `tresponse.TaskServiceResponse`
pub record ServiceView : Type 0 where
  pub response : Response
  pub completed_task_over_write_policy : String
  pub date_time : Time
  pub life_cycle_event_on_task_state_change : Bool
  pub service_enabled : Bool
  pub state : String
  pub health : String
  pub health_rollup : String
  pub tasks : String

-- What a task RPC marshals; `raw` is the stored answer of the operation itself.
pub data View : Type 0 where
  task : TaskView → View
  sub_task : SubTaskView → View
  collection : CollectionView → View
  service : ServiceView → View
  raw : String → View
