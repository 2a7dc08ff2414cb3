-- ===== src/Task/Handlers/Operations.antt =====
-- The task RPCs of svc-task/thandle/thandle.go and tmonitor.go.
use hwmgmt_device_mgr_device.Base.{
  String, pos, ℕ, zero, suc, true, ◌&&◌, not, List, [], ◌∷◌, map, contains, is_empty, eq_ℤ, ◌==◌,
  if◌then◌else◌,
}
use hwmgmt_device_mgr_device.Base.Text.{◌<>◌}
use hwmgmt_device_mgr_device.Base.Exec.{Outcome, ok, err, panic, Exec, pure, ◌>>=◌, ◌>>◌}
use hwmgmt_device_mgr_device.Response.{
  Rpc, Response, empty, view, general_error, create_generic_response,
}
use hwmgmt_device_mgr_device.Response.Messages.{
  success, internal_error, resource_not_found, task_started, status_ok, status_accepted,
  status_no_content, status_not_found, status_internal_server_error,
}
use hwmgmt_device_mgr_device.Task.Model.{Task, GetTaskRequest, tasks_uri}
use hwmgmt_device_mgr_device.Task.Views.{View, TaskView}
use hwmgmt_device_mgr_device.Task.Service.{TasksRpc}
use hwmgmt_device_mgr_device.Task.Cancel.{delete_completed_task, task_cancel_call_back}
use hwmgmt_device_mgr_device.Task.Handlers.Build.{
  blank, task_response, task_view, collection_view, sub_task_view, sub_task_member, is_over,
}
use hwmgmt_device_mgr_device.Task.Handlers.Access.{
  is_ok, Handler, or_fail, set_header, auth_error, authorize, session_user, find_task, access,
  validate_and_autherize, common_header,
}

-- A success message on a response, whose failure is a panic.
abbrev pub generic : {W : Type 0} → Response → String → Handler W Response
generic r status w = (
  elim (create_generic_response r status) [ ok v ↦ ok v | err e ↦ absurd e | panic p ↦ panic p ],
  w,
)

abbrev pub task_collection_link : String
task_collection_link = "</redfish/v1/SchemaStore/en/TaskCollection.json/>; rel=describedby"

-- The view of `GetTasks`: the message of the response is blanked, and the sub tasks are linked if
-- there are any.
unfoldable pub own_view : Task → Response → TaskView
unfolding task_view
own_view task response =
    task_view (task.parent_id == "" && not (is_empty task.child_task_ids))
      (record response { message = ""; message_id = ""; severity = "" }) task

module _ (ts : TasksRpc) where
  -- Where a task that is over is answered with 200, and any other with 202 and its monitor.
  abbrev pub by_state : Task → List (String × String) → String → View → Rpc View
  by_state t header message v =
      if is_over t
      then record {
        status_code = status_ok;
        status_message = message;
        header = header;
        body = view v;
      }
      else record {
        status_code = status_accepted;
        status_message = message;
        header = set_header "location" t.task_monitor header;
        body = view v;
      }

  unfoldable pub get_sub_tasks : GetTaskRequest → Handler ts.World (Rpc View)
  get_sub_tasks req = do
    header ← common_header ts
    task ← validate_and_autherize ts req
    response ←
        generic
          (record blank {
            odata_context = "/redfish/v1/$metadata#SubTasks.SubTasks";
            odata_id = tasks_uri <> task.id <> "/SubTasks/";
            odata_type = "#SubTasks.SubTasks";
            name = "SubTasks";
            description = "SubTasks";
            message_args = task.id ∷ [];
          })
          success
    pure (record {
      status_code = status_ok;
      status_message = success;
      header = header;
      body = view (
          View.collection
            (collection_view response (map (sub_task_member task) task.child_task_ids)));
    })

  unfoldable pub get_sub_task : GetTaskRequest → Handler ts.World (Rpc View)
  get_sub_task req = do
    header ← common_header ts
    task ← access ts req.session_token req.sub_task_id
    response ←
        generic
          (record blank {
            id = task.id;
            name = task.name;
            odata_context = "/redfish/v1/$metadata#SubTask.SubTask";
            odata_id = tasks_uri <> req.task_id <> "/SubTasks/" <> req.sub_task_id;
            odata_type = "#SubTask.v1_4_2.SubTask";
          })
          success
    pure (by_state task header success (View.sub_task (sub_task_view response task)))

  -- The loop of `TaskCollection` for a user who may only see their own tasks.
  unfoldable pub own_tasks : String → List String → Handler ts.World (List String)
  own_tasks user [] = pure []
  own_tasks user (id ∷ ids) = do
    task ←
        or_fail (ts.get_task_status_model id)
          (λ _. general_error status_not_found resource_not_found auth_error [])
    members ← own_tasks user ids
    pure (if task.user_name == user then (tasks_uri <> id) ∷ members else members)

  unfoldable pub task_collection : GetTaskRequest → Handler ts.World (Rpc View)
  task_collection req = do
    header ← common_header ts
    authorize ts req.session_token ("Login" ∷ [])
    ids ← or_fail ts.get_all_task_keys_model (λ e.
        general_error status_internal_server_error internal_error
          ("error: while trying to get all task keys from db: " <> e) [])
    admin ← (λ w.
        let (r, w') = ts.authentication_rpc req.session_token ("ConfigureUsers" ∷ []) w in
        (ok (is_ok r.status_code), w'))
    user ← session_user ts req.session_token
    members ← (if admin then pure (map (λ id. tasks_uri <> id) ids) else own_tasks user ids)
    pure (record {
      status_code = status_ok;
      status_message = success;
      header = header;
      body = view (
          View.collection (
            collection_view
              (record blank {
                name = "Task Collection";
                odata_context = "/redfish/v1/$metadata#TaskCollection.TaskCollection";
                odata_id = "/redfish/v1/TaskService/Tasks";
                odata_type = "#TaskCollection.TaskCollection";
              })
              members));
    })

  unfoldable pub get_tasks : GetTaskRequest → Handler ts.World (Rpc View)
  get_tasks req = do
    date ← common_header ts
    task ← validate_and_autherize ts req
    response ← generic (task_response task) success
    pure (
        by_state task (set_header "Link" task_collection_link date) "Success"
          (View.task (own_view task response)))

  unfoldable pub get_task_service : GetTaskRequest → Handler ts.World (Rpc View)
  get_task_service req = do
    date ← common_header ts
    authorize ts req.session_token ("ConfigureUsers" ∷ [])
    let enabled = contains ts.enabled_services "TaskService"
    time ← (λ w. let (t, w') = ts.now w in (ok t, w'))
    pure (record {
      status_code = status_ok;
      status_message = success;
      header =
          set_header "Link" "</redfish/v1/SchemaStore/en/TaskService.json>; rel=describedby" date;
      body = view (
          View.service (record {
            response = record blank {
              odata_type = "#TaskService.v1_2_0.TaskService";
              id = "TaskService";
              name = "TaskService";
              description = "TaskService";
              odata_context = "/redfish/v1/$metadata#TaskService.TaskService";
              odata_id = "/redfish/v1/TaskService";
            };
            completed_task_over_write_policy = "Oldest";
            date_time = time;
            life_cycle_event_on_task_state_change = true;
            service_enabled = enabled;
            state = if enabled then "Enabled" else "Disabled";
            health = "OK";
            health_rollup = "OK";
            tasks = "/redfish/v1/TaskService/Tasks";
          }));
    })

  -- `GetTaskMonitor` on a task that is not over.
  unfoldable pub monitor_running : List (String × String) → Task → Handler ts.World (Rpc View)
  monitor_running date task = do
    response ← generic (record (task_response task) { message_args = task.id ∷ [] }) task_started
    pure (record {
      status_code = status_accepted;
      status_message = task_started;
      header = set_header "location" task.task_monitor date;
      body = view (View.task (task_view (task.parent_id == "") response task));
    })

  -- `GetTaskMonitor`: the answer of an operation that is over is the stored one.
  unfoldable pub get_task_monitor : GetTaskRequest → Handler ts.World (Rpc View)
  unfolding monitor_running
  get_task_monitor req = do
    date ← common_header ts
    authorize ts req.session_token ("Login" ∷ [])
    session_user ts req.session_token
    task ← find_task ts req.task_id
    if is_over task
        then pure (record {
          status_code = task.status_code;
          status_message = "";
          header = task.payload.http_headers;
          body = view (View.raw task.task_response);
        })
        else monitor_running date task

  -- `iter` runs of the transaction are left; a success ends the loop, and `last` is the error of the
  -- run before.
  unfoldable pub retry : ℕ → Outcome String (Unit {0}) → String → Exec ts.World String (Unit {0})
  retry zero last id w = (last, w)
  retry (suc iter) last id w =
      let (r, w') = ts.transaction_model id (task_cancel_call_back ts) w in
      elim r [ ok _ ↦ (ok tt, w') | err e ↦ retry iter (err e) id w' | panic p ↦ (panic p, w') ]

  -- `DeleteTask` on a task that is complete.
  unfoldable pub delete_finished :
      GetTaskRequest → List (String × String) → Handler ts.World (Rpc View)
  delete_finished req header = do
    or_fail (delete_completed_task ts req.task_id) (λ e.
        general_error status_internal_server_error internal_error
          ("Error while deleting the completed task: " <> e) [])
    pure (record {
      status_code = status_no_content;
      status_message = "";
      header = header;
      body = empty;
    })

  -- `DeleteTask` on a task that is not.
  unfoldable pub delete_unfinished :
      GetTaskRequest → List (String × String) → Task → Handler ts.World (Rpc View)
  unfolding retry
  delete_unfinished req header task = do
    or_fail (retry 5 (ok tt) req.task_id) (λ e.
        general_error status_internal_server_error internal_error
          ("error max retries exceeded for TaskCancel Transaction: " <> e) [])
    response ← generic (record (task_response task) { message_args = task.id ∷ [] }) task_started
    pure (record {
      status_code = status_accepted;
      status_message = task_started;
      header = header;
      body = view (View.task (task_view (task.parent_id == "") response task));
    })

  unfoldable pub delete_task : GetTaskRequest → Handler ts.World (Rpc View)
  unfolding delete_finished delete_unfinished
  delete_task req = do
    date ← common_header ts
    task ← validate_and_autherize ts req
    authorize ts req.session_token ("ConfigureManager" ∷ [])
    let header = set_header "Allow" "DELETE" date
    if eq_ℤ task.percent_complete (pos 100)
        then delete_finished req header
        else delete_unfinished req header task
