-- ===== src/Task/Create/Created.antt =====
-- What `CreateTaskUtil` and `CreateChildTaskUtil` store.
use hwmgmt_device_mgr_device.Base.{
  String, ◌≡◌, sym, ap, ◌∙◌, ◌≢◌, inl, inr, true, false, none, arith, ◌==◌, eq_iff, Bool-cases, pos,
  [],
}
use hwmgmt_device_mgr_device.Base.Text.{◌<>◌}
use hwmgmt_device_mgr_device.Base.Exec.{Outcome, ok, bind-ok}
use hwmgmt_device_mgr_device.Task.Model.{tasks_uri}
use hwmgmt_device_mgr_device.Task.Service.{TasksRpc, TaskStore, put}
use hwmgmt_device_mgr_device.Task.Update.Operation.{wrap}
use hwmgmt_device_mgr_device.Task.Create.Operations.{new_task, create_task_util}

pub ok-injective : {a b : String} → (let r : Outcome String String = ok a in r) ≡ ok b → a ≡ b
ok-injective h = cc

module _ (ts : TasksRpc) (st : TaskStore ts) where
  -- The worlds in which `CreateTaskUtil` reads the clock and draws the id.
  abbrev pub at_clock : String → ts.World → ts.World
  at_clock user w = (ts.validate_task_user_name_model user w).1

  abbrev pub at_uuid : String → ts.World → ts.World
  at_uuid user w = (ts.now (at_clock user w)).1

  abbrev pub drawn_id : String → ts.World → String
  drawn_id user w = "task" <> (ts.new_uuid (at_uuid user w)).0

  -- A task that was not there is, and its URI is known.
  pub record Made (user uri : String) (w w' : ts.World) : Type 0 where
    pub named : user ≢ ""
    pub known : (ts.validate_task_user_name_model user w).0 ≡ ok tt
    pub location : uri ≡ tasks_uri <> drawn_id user w
    pub fresh : st.tasks w (drawn_id user w) ≡ none
    pub stored :
        st.tasks w'
        ≡ put (new_task user (drawn_id user w) (ts.now (at_clock user w)).0) (st.tasks w)

  pub create_task_util-Made :
      (user : String) (w : ts.World) {uri : String}
      → (create_task_util ts user w).0 ≡ ok uri
      → Made user uri w (create_task_util ts user w).1
  unfolding create_task_util new_task
  create_task_util-Made user w {uri} h = elim (Bool-cases (user == "")) [
    | inl hit ↦ absurd (nothing hit h)
    | inr miss ↦ made miss
  ]
    where
      nothing : (user == "") ≡ true → (create_task_util ts user w).0 ≢ ok uri
      nothing hit = rw hit (λ k. cc)

      made : (user == "") ≡ false → Made user uri w (create_task_util ts user w).1
      made miss =
          let w₁ = (ts.validate_task_user_name_model user w).1 in
          let w₂ = (ts.now w₁).1 in
          let t = new_task user ("task" <> (ts.new_uuid w₂).0) (ts.now w₁).0 in
          let (_, v, k) =
            bind-ok (wrap "error invalid user: " (ts.validate_task_user_name_model user)) _ w
              (rw (miss, create_task_util) at h) in
          let (_, e, r) = bind-ok (ts.persist_task_model t) _ (ts.new_uuid w₂).1 k in
          let (fresh, stored) = st.persist-ok t (ts.new_uuid w₂).1 e in
          let quiet : st.tasks (ts.new_uuid w₂).1 ≡ st.tasks w =
            st.uuid-tasks w₂ ∙ st.now-tasks w₁ ∙ st.validate-tasks user w in
          record {
            named = ground (arith, eq_iff user "");
            known = ground arith;
            location = sym (ok-injective r);
            fresh = rw quiet at fresh;
            stored = rw (miss, v, e) (stored ∙ ap (put t) quiet);
          }

  -- What `CreateTaskUtil` has answered and stored, from the world in which it began.
  pub record Created (user uri : String) (w w' : ts.World) : Type 0 where
    pub named : user ≢ ""
    pub known : (ts.validate_task_user_name_model user w).0 ≡ ok tt
    pub location : uri ≡ "/redfish/v1/TaskService/Tasks/" <> drawn_id user w
    pub stored :
        st.tasks w'
        ≡ put
            (record {
              parent_id = "";
              child_task_ids = [];
              id = drawn_id user w;
              uri = "/redfish/v1/TaskService/Tasks/" <> drawn_id user w;
              user_name = user;
              name = "Task " <> drawn_id user w;
              hide_payload = false;
              payload = record {
                http_headers = [];
                http_operation = "";
                json_body = "";
                target_uri = "";
              };
              percent_complete = pos 0;
              task_monitor = "/taskmon/" <> drawn_id user w;
              task_state = "New";
              task_status = "OK";
              status_code = pos 0;
              task_response = "";
              messages = [];
              start_time = (ts.now (at_clock user w)).0;
              end_time = 0;
            })
            (st.tasks w)

  -- A successful `CreateTaskUtil` was asked for by a user who has a name and is known. It has stored a
  -- task of that user, in state New and with status OK, without progress, parent or children, started
  -- at the time that the clock then showed, under "task" followed by the UUID that was then drawn, and
  -- it answers with that task's URI; the tasks under other ids are as they were.
  pub create_task_util-Created :
      (user : String) (w : ts.World) {uri : String}
      → (create_task_util ts user w).0 ≡ ok uri
      → Created user uri w (create_task_util ts user w).1
  unfolding new_task
  create_task_util-Created user w h =
      let made = create_task_util-Made user w h in
      record {
        named = made.named;
        known = made.known;
        location = made.location;
        stored = made.stored;
      }
