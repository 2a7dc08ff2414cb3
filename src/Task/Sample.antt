-- ===== src/Task/Sample.antt =====
-- A small system for the task service: the store is a function, every session belongs to alice, who
-- may log in and manage but may not configure users, and the index lists task1 and task2.
use hwmgmt_device_mgr_device.Base.{
  String, ℕ, pos, ◌≡◌, refl, inr, false, Option, none, some, List, [], ◌∷◌, arith, ◌==◌, eq_iff,
  if◌then◌else◌,
}
use hwmgmt_device_mgr_device.Base.Exec.{Outcome, ok, err}
use hwmgmt_device_mgr_device.Response.{Rpc, empty}
use hwmgmt_device_mgr_device.Task.Model.{Task}
use hwmgmt_device_mgr_device.Task.Views.{View}
use hwmgmt_device_mgr_device.Task.Service.{TasksRpc, TaskStore, Store, put, remove}

abbrev pub reply : ℕ → Rpc View
reply code = record { status_code = pos code; status_message = ""; header = []; body = empty }

abbrev pub auth : List String → Rpc View
auth [] = reply 200
auth (p ∷ _) = if p == "ConfigureUsers" then reply 403 else reply 200

-- A record that is stored under another id than its own is reported as damaged.
abbrev pub read_back : String → Option Task → Outcome String Task
read_back id none = err "not found"
read_back id (some t) = if t.id == id then ok t else err "damaged"

abbrev pub persist : Task → Option Task → Outcome String (Unit {0})
persist t none = ok tt
persist t (some _) = err "exists"

abbrev pub sample : TasksRpc
sample = record {
  World = Store;
  authentication_rpc = λ token privileges w. (auth privileges, w);
  get_session_user_name_rpc = λ token w. (ok "alice", w);
  get_task_status_model = λ id w. (read_back id (w id), w);
  get_all_task_keys_model = λ w. (ok ("task1" ∷ "task2" ∷ []), w);
  transaction_model = λ id f w. f id w;
  get_completed_tasks_index_model = λ user w. (ok [], w);
  delete_task_from_db_model = λ t w. (ok tt, remove t.id w);
  delete_task_index = λ id w. (ok tt, w);
  update_task_status_model = λ t w. (ok tt, put t w);
  persist_task_model = λ t w. (persist t (w t.id), (elim (w t.id) [ none ↦ put t w | some _ ↦ w ]));
  validate_task_user_name_model = λ user w. (ok tt, w);
  publish_to_message_bus = λ uri id type text w. w;
  http_date = λ t. "";
  parse_time = λ s. 0;
  enabled_services = "TaskService" ∷ [];
  now = λ w. (7, w);
  new_uuid = λ w. ("9", w);
  go_async_task_delete = λ id w. w;
}

pub read_back-ok : (id : String) (o : Option Task) {t : Task} → read_back id o ≡ ok t → o ≡ some t
read_back-ok id none h = cc
read_back-ok id (some t) h = ground arith

pub read_back-id : (id : String) (o : Option Task) {t : Task} → read_back id o ≡ ok t → t.id ≡ id
read_back-id id none h = cc
read_back-id id (some t) h = ground (arith, eq_iff t.id id)

pub persist-ok :
    (t : Task) (w : Store) (o : Option Task)
    → persist t o ≡ ok tt
    → (o ≡ none) × ((elim o [ none ↦ put t w | some _ ↦ w ]) ≡ put t w)
persist-ok t w none h = (refl, refl)
persist-ok t w (some _) h = cc

abbrev pub sample_store : TaskStore sample
sample_store = record {
  tasks = λ w. w;
  get-tasks = λ id w. refl;
  get-ok = λ id w h. read_back-ok id (w id) h;
  get-id = λ id w h. read_back-id id (w id) h;
  update-ok = λ t w h. refl;
  update-any = λ t w. inr refl;
  delete-ok = λ t w h. refl;
  delete-any = λ t w. inr refl;
  persist-ok = λ t w h. persist-ok t w (w t.id) h;
  validate-tasks = λ user w. refl;
  index-tasks = λ id w. refl;
  publish-tasks = λ uri id type text w. refl;
  now-tasks = λ w. refl;
  uuid-tasks = λ w. refl;
  spawn-tasks = λ id w. refl;
}

abbrev pub task1 : Task
task1 = record {
  parent_id = "";
  child_task_ids = [];
  id = "task1";
  uri = "/redfish/v1/TaskService/Tasks/task1";
  user_name = "alice";
  name = "Task task1";
  hide_payload = false;
  payload = record { http_headers = []; http_operation = ""; json_body = ""; target_uri = "" };
  percent_complete = pos 0;
  task_monitor = "/taskmon/task1";
  task_state = "Running";
  task_status = "OK";
  status_code = pos 0;
  task_response = "";
  messages = [];
  start_time = 3;
  end_time = 0;
}

abbrev pub one_task : Task → Store
one_task t = put t (λ _. none)
