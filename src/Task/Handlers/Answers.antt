-- ===== src/Task/Handlers/Answers.antt =====
-- What the task handlers answer.
use hwmgmt_device_mgr_device.Base.{
  String, pos, ◌≡◌, refl, Bool, true, false, List, [], ◌∷◌, arith, if◌then◌else◌,
}
use hwmgmt_device_mgr_device.Base.Exec.{Outcome, ok, err, panic, bind-ok}
use hwmgmt_device_mgr_device.Response.{Rpc, Response, view, create_generic_response, general_error}
use hwmgmt_device_mgr_device.Response.Messages.{status_ok, status_accepted, success}
use hwmgmt_device_mgr_device.Response.Safety.{general_error-panic}
use hwmgmt_device_mgr_device.Task.Model.{Task, GetTaskRequest}
use hwmgmt_device_mgr_device.Task.Views.{View, TaskView}
use hwmgmt_device_mgr_device.Task.Service.{TasksRpc}
use hwmgmt_device_mgr_device.Task.Handlers.Build.{is_over, task_response}
use hwmgmt_device_mgr_device.Task.Handlers.Access.{
  is_ok, access, validate_and_autherize, auth_error,
}
use hwmgmt_device_mgr_device.Task.Handlers.Operations.{
  get_tasks, own_view, own_tasks, task_collection,
}
use hwmgmt_device_mgr_device.Task.Handlers.Granted.{Holds, Granted, access-Granted}

not_found_without_args :
    general_error {V = View} (pos 404) "Base.1.11.0.ResourceNotFound" auth_error []
    ≡ panic "error: messageArgs doesn't match the expected count"
not_found_without_args =
    general_error-panic (pos 404) "Base.1.11.0.ResourceNotFound" auth_error [] (omega arith)
      (omega arith)

-- `CreateGenericResponse(Success)` on the response of a task.
abbrev success_response : Task → Response
success_response t = record (task_response t) {
  message_id = success;
  severity = "OK";
  message = "Successfully Completed Request";
}

module _ (ts : TasksRpc) where
  -- The full answer of `GetTasks` shows the task that the store holds, to its owner or to an
  -- administrator only; 200 says that the task is over, 202 that it is not.
  pub get_tasks-Granted :
      (req : GetTaskRequest) (w : ts.World) {rpc : Rpc View}
      → (get_tasks ts req w).0 ≡ ok rpc
      → (t : Task) × Granted ts req.session_token req.task_id (ts.now w).1 t
        × (v : TaskView) × (rpc.body ≡ view (View.task v))
        × (v.task_state ≡ t.task_state)
        × (v.percent_complete ≡ t.percent_complete)
        × (rpc.status_code ≡ (if is_over t then status_ok else status_accepted))
  unfolding get_tasks validate_and_autherize create_generic_response own_view
  get_tasks-Granted req w h =
      let (t, granted, h₁) = bind-ok (access ts req.session_token req.task_id) _ (ts.now w).1 h in
      (
        t,
        access-Granted ts req.session_token req.task_id (ts.now w).1 granted,
        own_view t (success_response t),
        ground arith,
        refl,
        refl,
        ground arith,
      )

  -- Whether the loop over these ids meets a task that can no longer be read.
  unfoldable pub some_read_fails : List String → ts.World → Bool
  some_read_fails [] w = false
  some_read_fails (id ∷ ids) w =
      let (r, w') = ts.get_task_status_model id w in
      elim r [ ok _ ↦ some_read_fails ids w' | err _ ↦ true | panic _ ↦ false ]

  own_tasks-panic :
      (user : String) (ids : List String) (w : ts.World)
      → some_read_fails ids w ≡ true
      → (own_tasks ts user ids w).0 ≡ panic "error: messageArgs doesn't match the expected count"
  unfolding own_tasks some_read_fails
  own_tasks-panic user [] w h = cc
  own_tasks-panic user (id ∷ ids) w h =
      from_read (ts.get_task_status_model id w).0 refl
        (own_tasks-panic user ids (ts.get_task_status_model id w).1)
    where
      from_read :
          (o : Outcome String Task)
          → (ts.get_task_status_model id w).0 ≡ o
          → (some_read_fails ids (ts.get_task_status_model id w).1 ≡ true
              → (own_tasks ts user ids (ts.get_task_status_model id w).1).0
                ≡ panic "error: messageArgs doesn't match the expected count")
          → (own_tasks ts user (id ∷ ids) w).0
            ≡ panic "error: messageArgs doesn't match the expected count"
      from_read (ok t) e ih = rw e (rw (ih (rw (e, some_read_fails) at h)))
      from_read (err x) e ih = rw (e, not_found_without_args)
      from_read (panic x) e ih = cc (rw (e, some_read_fails) at h)

  -- A collection request of a user who may not configure users ends in a panic of the handler, not
  -- in a response, as soon as one of the listed tasks can no longer be read: the error response is
  -- asked for without the two arguments that its message wants.
  pub task_collection-panic :
      (req : GetTaskRequest) (w : ts.World) (ids : List String) (user : String)
      → let token = req.session_token in
        let w₁ = (ts.authentication_rpc token ("Login" ∷ []) (ts.now w).1).1 in
        let w₂ = (ts.get_all_task_keys_model w₁).1 in
        let w₃ = (ts.authentication_rpc token ("ConfigureUsers" ∷ []) w₂).1 in
        let w₄ = (ts.get_session_user_name_rpc token w₃).1 in
        Holds ts token ("Login" ∷ []) (ts.now w).1
        → (ts.get_all_task_keys_model w₁).0 ≡ ok ids
        → is_ok (ts.authentication_rpc token ("ConfigureUsers" ∷ []) w₂).0.status_code ≡ false
        → (ts.get_session_user_name_rpc token w₃).0 ≡ ok user
        → some_read_fails ids w₄ ≡ true
        → (task_collection ts req w).0 ≡ panic "error: messageArgs doesn't match the expected count"
  unfolding task_collection
  task_collection-panic req w ids user login keys admin session fails =
      rw (login, keys, admin, session) (rw (own_tasks-panic user ids _ fails))
