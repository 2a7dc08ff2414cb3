-- ===== src/Task/Handlers/Monitor.antt =====
-- What GetTaskMonitor of svc-task/thandle/tmonitor.go has checked, and what it shows.
use hwmgmt_device_mgr_device.Base.{
  String, ◌≡◌, ◌≢◌, refl, ◌⊎◌, inl, inr, Bool-cases, true, false, [], ◌∷◌, arith, eq_iff, ◌==◌,
  List,
}
use hwmgmt_device_mgr_device.Base.Exec.{Outcome, ok, bind-ok}
use hwmgmt_device_mgr_device.Response.{Rpc, view}
use hwmgmt_device_mgr_device.Response.Messages.{status_accepted, task_started}
use hwmgmt_device_mgr_device.Task.Model.{Task, GetTaskRequest}
use hwmgmt_device_mgr_device.Task.Views.{View, TaskView}
use hwmgmt_device_mgr_device.Task.Service.{TasksRpc}
use hwmgmt_device_mgr_device.Task.Handlers.Build.{is_over, task_response, task_view}
use hwmgmt_device_mgr_device.Task.Handlers.Access.{authorize, session_user, find_task}
use hwmgmt_device_mgr_device.Task.Handlers.Operations.{generic, get_task_monitor, monitor_running}
use hwmgmt_device_mgr_device.Task.Handlers.Granted.{
  Holds, after_login, after_user, or_fail-ok, authorize-Holds,
}

abbrev pub HasEnded : Task → Type 0
HasEnded t =
    (t.task_state ≡ "Completed")
    ⊎ (t.task_state ≡ "Cancelled")
    ⊎ (t.task_state ≡ "Killed")
    ⊎ (t.task_state ≡ "Exception")

abbrev pub IsOpen : Task → Type 0
IsOpen t =
    (t.task_state ≢ "Completed")
    × (t.task_state ≢ "Cancelled")
    × (t.task_state ≢ "Killed")
    × (t.task_state ≢ "Exception")

-- The answer of an operation that is over, and that of one that runs.
abbrev pub Stored : Task → Rpc View → Type 0
Stored t rpc = rpc ≡ record {
  status_code = t.status_code;
  status_message = "";
  header = t.payload.http_headers;
  body = view (View.raw t.task_response);
}

abbrev pub IsRunning : Task → Rpc View → Type 0
IsRunning t rpc =
    (rpc.status_code ≡ status_accepted)
    × (v : TaskView) × (rpc.body ≡ view (View.task v))
    × (v.task_state ≡ t.task_state)
    × (v.percent_complete ≡ t.percent_complete)

is_over-HasEnded : (t : Task) → is_over t ≡ true → HasEnded t
unfolding is_over
is_over-HasEnded t h = ground (
  arith,
  eq_iff t.task_state "Completed",
  eq_iff t.task_state "Cancelled",
  eq_iff t.task_state "Killed",
  eq_iff t.task_state "Exception",
)

is_over-IsOpen : (t : Task) → is_over t ≡ false → IsOpen t
unfolding is_over
is_over-IsOpen t h = ground (
  arith,
  eq_iff t.task_state "Completed",
  eq_iff t.task_state "Cancelled",
  eq_iff t.task_state "Killed",
  eq_iff t.task_state "Exception",
)

ended-Stored :
    (t : Task) {rpc : Rpc View}
    → let answer : Outcome (Rpc View) (Rpc View) = ok (record {
      status_code = t.status_code;
      status_message = "";
      header = t.payload.http_headers;
      body = view (View.raw t.task_response);
    }) in
      answer ≡ ok rpc → Stored t rpc
ended-Stored t h = ground arith

module _ (ts : TasksRpc) where
  -- What a full answer of GetTaskMonitor rests on, in the worlds of its calls, and what it shows.
  pub record Monitored (token id : String) (w : ts.World) (rpc : Rpc View) : Type 0 where
    pub login : Holds ts token ("Login" ∷ []) w
    pub user : String
    pub session : (ts.get_session_user_name_rpc token (after_login ts token w)).0 ≡ ok user
    pub task : Task
    pub read : (ts.get_task_status_model id (after_user ts token w)).0 ≡ ok task
    pub shown : (HasEnded task × Stored task rpc) ⊎ (IsOpen task × IsRunning task rpc)

  running-IsRunning :
      (date : List (String × String)) (t : Task) (w : ts.World) {rpc : Rpc View}
      → (monitor_running ts date t w).0 ≡ ok rpc
      → IsRunning t rpc
  unfolding monitor_running task_view
  running-IsRunning date t w h =
      let (response, _, k) =
        bind-ok (generic (record (task_response t) { message_args = t.id ∷ [] }) task_started) _ w
          h in
      (ground arith, task_view (t.parent_id == "") response t, ground arith, refl, refl)

  -- A full answer of GetTaskMonitor means that the session may log in and has a user, and that the task
  -- was then read from the store, whoever owns it. Where the task has ended (Completed, Cancelled, Killed
  -- or Exception), the answer is the stored status code, headers and response of the operation; else it
  -- is a 202 with a view of the task that has its state and its progress.
  pub get_task_monitor-Monitored :
      (req : GetTaskRequest) (w : ts.World) {rpc : Rpc View}
      → (get_task_monitor ts req w).0 ≡ ok rpc
      → Monitored req.session_token req.task_id (ts.now w).1 rpc
  unfolding get_task_monitor
  get_task_monitor-Monitored req w {rpc} h =
      let w₁ = (ts.now w).1 in
      let token = req.session_token in
      let (_, login, h₁) = bind-ok (authorize ts token ("Login" ∷ [])) _ w₁ h in
      let (user, session, h₂) = bind-ok (session_user ts token) _ _ h₁ in
      let (task, stored, h₃) = bind-ok (find_task ts req.task_id) _ _ h₂ in
      record {
        login = authorize-Holds ts token _ w₁ login;
        user = user;
        session =
            or_fail-ok (ts.get_session_user_name_rpc token) _ (after_login ts token w₁) session;
        task = task;
        read = or_fail-ok (ts.get_task_status_model req.task_id) _ (after_user ts token w₁) stored;
        shown = elim (Bool-cases (is_over task)) [
          | inl over ↦ inl (is_over-HasEnded task over, ended-Stored task (rw over at h₃))
          | inr running ↦ inr (
            is_over-IsOpen task running,
            running-IsRunning (("Date", ts.http_date (ts.now w).0) ∷ []) task
                (find_task ts req.task_id
                  (session_user ts token (authorize ts token ("Login" ∷ []) w₁).1).1).1
                (rw running at h₃),
          )
        ];
      }
