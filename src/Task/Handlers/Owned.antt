-- ===== src/Task/Handlers/Owned.antt =====
-- Which tasks `TaskCollection` lists for a user who may not configure users.
use hwmgmt_device_mgr_device.Base.{
  String, ◌≡◌, ap, ◌∙◌, sym, false, none, some, List, [], ◌∷◌, arith, ◌==◌, if◌then◌else◌,
}
use hwmgmt_device_mgr_device.Base.Text.{◌<>◌}
use hwmgmt_device_mgr_device.Base.Exec.{Outcome, ok, bind-ok}
use hwmgmt_device_mgr_device.Response.{Rpc, Response, view, general_error}
use hwmgmt_device_mgr_device.Response.Messages.{status_not_found, resource_not_found}
use hwmgmt_device_mgr_device.Task.Model.{GetTaskRequest, tasks_uri}
use hwmgmt_device_mgr_device.Task.Views.{View, CollectionView}
use hwmgmt_device_mgr_device.Task.Service.{TasksRpc, TaskStore, Store}
use hwmgmt_device_mgr_device.Task.Handlers.Build.{blank, collection_view}
use hwmgmt_device_mgr_device.Task.Handlers.Access.{is_ok, authorize, or_fail, auth_error}
use hwmgmt_device_mgr_device.Task.Handlers.Operations.{own_tasks, task_collection}
use hwmgmt_device_mgr_device.Task.Handlers.Granted.{Holds, authorize-Holds, or_fail-ok}

-- The links of the tasks with these ids that the store has for the user, in the order of the ids.
abbrev pub owned : Store → String → List String → List String
owned s user [] = []
owned s user (id ∷ ids) = elim (s id) [
  | none ↦ owned s user ids
  | some t ↦ if t.user_name == user then (tasks_uri <> id) ∷ owned s user ids else owned s user ids
]

ok-injective :
    {a b : List String} → (let r : Outcome (Rpc View) (List String) = ok a in r) ≡ ok b → a ≡ b
ok-injective h = ground arith

rpc-injective :
    {a b : Rpc View} → (let r : Outcome (Rpc View) (Rpc View) = ok a in r) ≡ ok b → a ≡ b
rpc-injective h = ground arith

abbrev collection_response : Response
collection_response = record blank {
  name = "Task Collection";
  odata_context = "/redfish/v1/$metadata#TaskCollection.TaskCollection";
  odata_id = "/redfish/v1/TaskService/Tasks";
  odata_type = "#TaskCollection.TaskCollection";
}

module _ (ts : TasksRpc) (st : TaskStore ts) where
  own_tasks-owned :
      (user : String) (ids : List String) (w : ts.World) {members : List String}
      → (own_tasks ts user ids w).0 ≡ ok members
      → members ≡ owned (st.tasks w) user ids
  unfolding own_tasks
  own_tasks-owned user [] w h = ground arith
  own_tasks-owned user (id ∷ ids) w h =
      let read =
        or_fail (ts.get_task_status_model id)
          (λ _. general_error status_not_found resource_not_found auth_error []) in
      let (t, g, k) = bind-ok read _ w h in
      let (ms, g', k') = bind-ok (own_tasks ts user ids) _ (read w).1 k in
      let stored = st.get-ok id w (or_fail-ok (ts.get_task_status_model id) _ w g) in
      let rest : ms ≡ owned (st.tasks w) user ids =
        own_tasks-owned user ids (ts.get_task_status_model id w).1 g'
        ∙ ap (λ s. owned s user ids) (st.get-tasks id w) in
      rw (owned, stored)
        (sym (ok-injective k')
          ∙ ap (λ ms. if t.user_name == user then (tasks_uri <> id) ∷ ms else ms) rest)

  -- A collection that a user is shown who may not configure users lists, in the order of the index, the
  -- tasks of that user in the store, and no others.
  pub task_collection-owned :
      (req : GetTaskRequest) (w : ts.World) (ids : List String) (user : String) {rpc : Rpc View}
      → let token = req.session_token in
        let w₁ = (ts.authentication_rpc token ("Login" ∷ []) (ts.now w).1).1 in
        let w₂ = (ts.get_all_task_keys_model w₁).1 in
        let w₃ = (ts.authentication_rpc token ("ConfigureUsers" ∷ []) w₂).1 in
        let w₄ = (ts.get_session_user_name_rpc token w₃).1 in
        (ts.get_all_task_keys_model w₁).0 ≡ ok ids
        → is_ok (ts.authentication_rpc token ("ConfigureUsers" ∷ []) w₂).0.status_code ≡ false
        → (ts.get_session_user_name_rpc token w₃).0 ≡ ok user
        → (task_collection ts req w).0 ≡ ok rpc
        → Holds ts token ("Login" ∷ []) (ts.now w).1
          × (c : CollectionView) × (rpc.body ≡ view (View.collection c))
          × (c.members ≡ owned (st.tasks w₄) user ids)
  unfolding task_collection collection_view
  task_collection-owned req w ids user keys admin session h =
      let w₀ = (ts.now w).1 in
      let (_, login, k) = bind-ok (authorize ts req.session_token ("Login" ∷ [])) _ w₀ h in
      let (ms, found, r) = bind-ok (own_tasks ts user ids) _ _ (rw (keys, admin, session) at k) in
      (
        authorize-Holds ts req.session_token ("Login" ∷ []) w₀ login,
        collection_view collection_response ms,
        ap (λ v. v.body) (sym (rpc-injective r)),
        own_tasks-owned user ids _ found,
      )
