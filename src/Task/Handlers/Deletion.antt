-- ===== src/Task/Handlers/Deletion.antt =====
-- What `DeleteTask` answers, and to whom.
use hwmgmt_device_mgr_device.Base.{
  String, List, pos, ◌≡◌, Bool, true, false, [], ◌∷◌, arith, eq_ℤ, if◌then◌else◌,
}
use hwmgmt_device_mgr_device.Base.Exec.{Outcome, ok, bind-ok}
use hwmgmt_device_mgr_device.Response.{Rpc}
use hwmgmt_device_mgr_device.Response.Messages.{status_no_content, status_accepted}
use hwmgmt_device_mgr_device.Task.Model.{Task, GetTaskRequest}
use hwmgmt_device_mgr_device.Task.Views.{View}
use hwmgmt_device_mgr_device.Task.Service.{TasksRpc}
use hwmgmt_device_mgr_device.Task.Cancel.{delete_completed_task}
use hwmgmt_device_mgr_device.Task.Handlers.Access.{
  or_fail, access, authorize, validate_and_autherize,
}
use hwmgmt_device_mgr_device.Task.Handlers.Operations.{
  delete_task, generic, retry, delete_finished, delete_unfinished,
}
use hwmgmt_device_mgr_device.Task.Handlers.Granted.{Holds, Granted, access-Granted, authorize-Holds}

rpc-code :
    {a b : Rpc View}
    → (let r : Outcome (Rpc View) (Rpc View) = ok a in r) ≡ ok b
    → b.status_code ≡ a.status_code
rpc-code h = ground arith

module _ (ts : TasksRpc) where
  delete_finished-code :
      (req : GetTaskRequest) (header : List (String × String)) (w : ts.World) {rpc : Rpc View}
      → (delete_finished ts req header w).0 ≡ ok rpc
      → rpc.status_code ≡ status_no_content
  unfolding delete_finished
  delete_finished-code req header w h =
      let (_, _, r) = bind-ok (or_fail (delete_completed_task ts req.task_id) _) _ w h in rpc-code r

  delete_unfinished-code :
      (req : GetTaskRequest) (header : List (String × String)) (t : Task) (w : ts.World)
      {rpc : Rpc View}
      → (delete_unfinished ts req header t w).0 ≡ ok rpc
      → rpc.status_code ≡ status_accepted
  unfolding delete_unfinished
  delete_unfinished-code req header t w h =
      let (_, _, k) = bind-ok (or_fail (retry ts 5 (ok tt) req.task_id) _) _ w h in
      let (_, _, r) = bind-ok (generic _ _) _ _ k in rpc-code r

  code :
      (req : GetTaskRequest) (header : List (String × String)) (t : Task) (b : Bool) (w : ts.World)
      {rpc : Rpc View}
      → ((if b then delete_finished ts req header else delete_unfinished ts req header t) w).0
        ≡ ok rpc
      → rpc.status_code ≡ (if b then status_no_content else status_accepted)
  code req header t true w h = delete_finished-code req header w h
  code req header t false w h = delete_unfinished-code req header t w h

  -- A deletion that is answered in full was asked for by the owner of the stored task or by an
  -- administrator, who may also configure the manager; 204 says that the task was complete, 202
  -- that it was not.
  pub delete_task-Granted :
      (req : GetTaskRequest) (w : ts.World) {rpc : Rpc View}
      → (delete_task ts req w).0 ≡ ok rpc
      → (t : Task) × Granted ts req.session_token req.task_id (ts.now w).1 t
        × Holds ts req.session_token
            ("ConfigureManager" ∷ [])
            (access ts req.session_token req.task_id (ts.now w).1).1
        × (rpc.status_code
            ≡ (if eq_ℤ t.percent_complete (pos 100) then status_no_content else status_accepted))
  unfolding delete_task validate_and_autherize
  delete_task-Granted req w h =
      let w₁ = (ts.now w).1 in
      let (t, granted, k) = bind-ok (access ts req.session_token req.task_id) _ w₁ h in
      let w₂ = (access ts req.session_token req.task_id w₁).1 in
      let (_, manager, r) =
        bind-ok (authorize ts req.session_token ("ConfigureManager" ∷ [])) _ w₂ k in
      (
        t,
        access-Granted ts req.session_token req.task_id w₁ granted,
        authorize-Holds ts req.session_token ("ConfigureManager" ∷ []) w₂ manager,
        code req _ t (eq_ℤ t.percent_complete (pos 100)) _ r,
      )
