-- ===== src/Task/Handlers/Build.antt =====
-- The bodies that the handlers of svc-task/thandle/thandle.go and tmonitor.go build from a task.
use hwmgmt_device_mgr_device.Base.{
  String, Bool, ◌||◌, none, some, List, [], map, length, ◌==◌, if◌then◌else◌,
}
use hwmgmt_device_mgr_device.Base.Text.{◌<>◌}
use hwmgmt_device_mgr_device.Response.{Response}
use hwmgmt_device_mgr_device.Task.Model.{Task, Message, Payload, tasks_uri}
use hwmgmt_device_mgr_device.Task.Views.{
  PayloadView, MessageView, TaskView, SubTaskView, CollectionView,
}

unfoldable pub message_view : Message → MessageView
message_view m = record {
  message_id = m.message_id;
  related_properties = m.related_properties;
  message = m.message;
  message_args = m.message_args;
  severity = m.severity;
}

-- The headers are a map: the order of the lines is that of the entries here.
unfoldable pub payload_view : Payload → PayloadView
payload_view p = record {
  http_headers = map (λ kv. kv.0 <> ": " <> kv.1) p.http_headers;
  http_operation = p.http_operation;
  json_body = p.json_body;
  target_uri = p.target_uri;
}

abbrev pub blank : Response
blank = record {
  odata_type = "";
  odata_id = "";
  odata_context = "";
  description = "";
  id = "";
  name = "";
  message = "";
  message_id = "";
  message_args = [];
  number_of_args = 0;
  severity = "";
}

unfoldable pub task_response : Task → Response
task_response t = record blank {
  odata_type = "#Task.v1_5_1.Task";
  id = t.id;
  name = t.name;
  odata_context = "/redfish/v1/$metadata#Task.Task";
  odata_id = tasks_uri <> t.id;
}

abbrev pub sub_tasks_uri : Task → String
sub_tasks_uri t = tasks_uri <> t.id <> "/SubTasks"

-- `tresponse.Task`, with the link to the sub tasks if `linked`.
unfoldable pub task_view : Bool → Response → Task → TaskView
unfolding message_view payload_view
task_view linked r t = record {
  response = r;
  task_state = t.task_state;
  start_time = t.start_time;
  end_time = t.end_time;
  task_status = t.task_status;
  sub_tasks = if linked then some (sub_tasks_uri t) else none;
  task_monitor = t.task_monitor;
  percent_complete = t.percent_complete;
  payload = payload_view t.payload;
  messages = map message_view t.messages;
}

unfoldable pub sub_task_member : Task → String → String
sub_task_member t id = tasks_uri <> t.id <> "/SubTasks/" <> id

unfoldable pub collection_view : Response → List String → CollectionView
collection_view r members = record {
  response = r;
  members_count = length members;
  members = members;
}

unfoldable pub sub_task_view : Response → Task → SubTaskView
unfolding message_view payload_view sub_task_member
sub_task_view r t = record {
  response = r;
  members_count = length t.child_task_ids;
  members = map (sub_task_member t) t.child_task_ids;
  task_state = t.task_state;
  start_time = t.start_time;
  end_time = t.end_time;
  task_status = t.task_status;
  task_monitor = t.task_monitor;
  percent_complete = t.percent_complete;
  payload = payload_view t.payload;
  messages = map message_view t.messages;
}

-- The states for which the full answer is given.
unfoldable pub is_over : Task → Bool
is_over t =
    t.task_state == "Completed"
    || t.task_state == "Cancelled"
    || t.task_state == "Killed"
    || t.task_state == "Exception"
