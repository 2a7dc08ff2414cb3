-- ===== src/Task/Service.antt =====
-- `TasksRPC` of svc-task/thandle/thandle.go: the calls that the task service makes, over a world that
-- holds the databases, the message bus and the other services. Each field is a function that the
-- source keeps in a field of the same name, or a call of the clock, of the generator of ids, or of
-- the scheduler.
use hwmgmt_device_mgr_device.Base.{String, ◌≡◌, ◌⊎◌, Option, none, some, List, ◌==◌, if◌then◌else◌}
use hwmgmt_device_mgr_device.Base.Exec.{ok, Exec}
use hwmgmt_device_mgr_device.Response.{Rpc}
use hwmgmt_device_mgr_device.Task.Model.{Task, Time}
use hwmgmt_device_mgr_device.Task.Views.{View}

pub record TasksRpc : Type 1 where
  pub World : Type 0
  pub authentication_rpc : String → List String → World → Rpc View × World
  pub get_session_user_name_rpc : String → Exec World String String
  pub get_task_status_model : String → Exec World String Task
  pub get_all_task_keys_model : Exec World String (List String)
  -- `TransactionModel` around a callback: WATCH and MULTI before it, EXEC after it.
  pub transaction_model :
      String → (String → Exec World String (Unit {0})) → Exec World String (Unit {0})
  pub get_completed_tasks_index_model : String → Exec World String (List String)
  pub delete_task_from_db_model : Task → Exec World String (Unit {0})
  pub delete_task_index : String → Exec World String (Unit {0})
  pub update_task_status_model : Task → Exec World String (Unit {0})
  pub persist_task_model : Task → Exec World String (Unit {0})
  pub validate_task_user_name_model : String → Exec World String (Unit {0})
  -- task URI, message id, event type, text
  pub publish_to_message_bus : String → String → String → String → World → World
  -- `t.Format(http.TimeFormat)`, and `time.Parse` at the layout of the index entries.
  pub http_date : Time → String
  pub parse_time : String → Time
  -- `config.Data.EnabledServices`
  pub enabled_services : List String
  -- `time.Now()`
  pub now : World → Time × World
  -- `uuid.New().String()`
  pub new_uuid : World → String × World
  -- `go ts.asyncTaskDelete(id)`: hands the call to the scheduler.
  pub go_async_task_delete : String → World → World

-- What the tasks of the database are, as a function of their ids.
abbrev pub Store : Type 0
Store = String → Option Task

abbrev pub put : Task → Store → Store
put t s k = if t.id == k then some t else s k

abbrev pub remove : String → Store → Store
remove id s k = if id == k then none else s k

-- What the task service relies on: a read shows the stored task and changes nothing stored, a write
-- that reports success is what later reads show, and the calls that are not about tasks leave them
-- alone. A write that fails may or may not have
-- happened.
pub record TaskStore (ts : TasksRpc) : Type 1 where
  pub tasks : ts.World → Store
  pub get-tasks : (id : String) (w : ts.World) → tasks (ts.get_task_status_model id w).1 ≡ tasks w
  pub get-ok :
      (id : String) (w : ts.World) {t : Task}
      → (ts.get_task_status_model id w).0 ≡ ok t
      → tasks w id ≡ some t
  pub get-id :
      (id : String) (w : ts.World) {t : Task} → (ts.get_task_status_model id w).0 ≡ ok t → t.id ≡ id
  pub update-ok :
      (t : Task) (w : ts.World)
      → (ts.update_task_status_model t w).0 ≡ ok tt
      → tasks (ts.update_task_status_model t w).1 ≡ put t (tasks w)
  pub update-any :
      (t : Task) (w : ts.World)
      → (tasks (ts.update_task_status_model t w).1 ≡ tasks w)
        ⊎ (tasks (ts.update_task_status_model t w).1 ≡ put t (tasks w))
  pub delete-ok :
      (t : Task) (w : ts.World)
      → (ts.delete_task_from_db_model t w).0 ≡ ok tt
      → tasks (ts.delete_task_from_db_model t w).1 ≡ remove t.id (tasks w)
  pub delete-any :
      (t : Task) (w : ts.World)
      → (tasks (ts.delete_task_from_db_model t w).1 ≡ tasks w)
        ⊎ (tasks (ts.delete_task_from_db_model t w).1 ≡ remove t.id (tasks w))
  pub persist-ok :
      (t : Task) (w : ts.World)
      → (ts.persist_task_model t w).0 ≡ ok tt
      → (tasks w t.id ≡ none) × (tasks (ts.persist_task_model t w).1 ≡ put t (tasks w))
  pub validate-tasks :
      (user : String) (w : ts.World) → tasks (ts.validate_task_user_name_model user w).1 ≡ tasks w
  pub index-tasks : (id : String) (w : ts.World) → tasks (ts.delete_task_index id w).1 ≡ tasks w
  pub publish-tasks :
      (uri id type text : String) (w : ts.World)
      → tasks (ts.publish_to_message_bus uri id type text w) ≡ tasks w
  pub now-tasks : (w : ts.World) → tasks (ts.now w).1 ≡ tasks w
  pub uuid-tasks : (w : ts.World) → tasks (ts.new_uuid w).1 ≡ tasks w
  pub spawn-tasks : (id : String) (w : ts.World) → tasks (ts.go_async_task_delete id w) ≡ tasks w
