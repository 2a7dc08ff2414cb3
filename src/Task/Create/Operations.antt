-- ===== src/Task/Create/Operations.antt =====
-- `CreateTaskUtil` and `CreateChildTaskUtil` of svc-task/thandle/thandle.go.
use hwmgmt_device_mgr_device.Base.{
  String, ◌-◌, pos, false, none, some, [], ◌∷◌, ◌++◌, get_elem?, length, ◌==◌, if◌then◌else◌,
}
use hwmgmt_device_mgr_device.Base.Text.{◌<>◌, split, ends_with}
use hwmgmt_device_mgr_device.Base.Exec.{Outcome, ok, panic, Exec, pure, raise, lift, ◌>>=◌, ◌>>◌}
use hwmgmt_device_mgr_device.Task.Model.{Task, Time, zero_time, tasks_uri}
use hwmgmt_device_mgr_device.Task.Service.{TasksRpc}
use hwmgmt_device_mgr_device.Task.Update.Operation.{wrap}

-- The record that `CreateTaskUtil` fills; the fields that it leaves out are Go's zero values.
unfoldable pub new_task : String → String → Time → Task
new_task user id time = record {
  parent_id = "";
  child_task_ids = [];
  id = id;
  uri = tasks_uri <> id;
  user_name = user;
  name = "Task " <> id;
  hide_payload = false;
  payload = record { http_headers = []; http_operation = ""; json_body = ""; target_uri = "" };
  percent_complete = pos 0;
  task_monitor = "/taskmon/" <> id;
  task_state = "New";
  task_status = "OK";
  status_code = pos 0;
  task_response = "";
  messages = [];
  start_time = time;
  end_time = zero_time;
}

-- The id at the end of a task's URI: the last piece, or the one before a trailing slash.
unfoldable pub child_id_of_uri : String → Outcome String String
child_id_of_uri uri =
    let pieces = split b'/' uri in
    let i = if ends_with b'/' uri then length pieces - 2 else length pieces - 1 in
    elim (get_elem? pieces i) [ some id ↦ ok id | none ↦ panic "index out of range" ]

module _ (ts : TasksRpc) where
  unfoldable pub create_task_util : String → Exec ts.World String String
  create_task_util user = if user == "" then raise "error invalid username" else do
    wrap "error invalid user: " (ts.validate_task_user_name_model user)
    current_time ← (λ w. let (t, w') = ts.now w in (ok t, w'))
    uuid ← (λ w. let (u, w') = ts.new_uuid w in (ok u, w'))
    let task = new_task user ("task" <> uuid) current_time
    ts.persist_task_model task
    pure (tasks_uri <> task.id)

  -- What is done with the child's record once it is read: it is given its parent, and is then added to
  -- the record of the parent that was read at the start.
  unfoldable pub link_child : String → Task → String → Task → Exec ts.World String String
  link_child parent_task_id parent child_task_id child = do
    wrap "error while updating the child/sub task details: " (
        ts.update_task_status_model (record child {
          parent_id = parent_task_id;
          uri = tasks_uri <> parent_task_id <> "/" <> child_task_id;
        }))
    wrap "error while trying to update the task details in InMemory DB: " (
        ts.update_task_status_model
          (record parent { child_task_ids = parent.child_task_ids ++ child_task_id ∷ [] }))
    pure (tasks_uri <> child_task_id)

  -- The child is found again by the URI that its creation returned.
  unfoldable pub adopt : String → Task → String → Exec ts.World String String
  unfolding link_child
  adopt parent_task_id parent task_uri = do
    child_task_id ← lift (child_id_of_uri task_uri)
    child ←
        wrap "error while retrieving the child/sub task from DB: "
          (ts.get_task_status_model child_task_id)
    link_child parent_task_id parent child_task_id child

  -- `CreateTaskUtilHelper` is bound to `create_task_util` in svc-task/main.go.
  unfoldable pub create_child_task_util : String → String → Exec ts.World String String
  unfolding adopt
  create_child_task_util user parent_task_id =
      if parent_task_id == "" then raise "error parent task ID is empty" else do
        parent ←
            wrap "error while retrieing the task detais from DB: "
              (ts.get_task_status_model parent_task_id)
        task_uri ← wrap "error while creating child/sub task: " (create_task_util parent.user_name)
        adopt parent_task_id parent task_uri
