-- ===== src/Task/Database.antt =====
-- svc-task/tmodel/tmodel.go: the tasks in the database, through GetDBConnection of
-- lib-utilities/common/dbconn.go and the methods of the persistence manager. The functions that
-- `TasksRpc` names are these. An error is the text of a Go error.
use hwmgmt_device_mgr_device.Base.{
  String, ℕ, ℤ, pos, negsuc, ◌&&◌, ◌||◌, List, [], ◌==◌, if◌then◌else◌,
}
use hwmgmt_device_mgr_device.Base.Text.{◌<>◌}
use hwmgmt_device_mgr_device.Base.Exec.{Outcome, Exec, pure, raise, lift, on_error, ◌>>=◌, ◌>>◌}
use hwmgmt_device_mgr_device.Errors.{Error}
use hwmgmt_device_mgr_device.Persistence.Redis.{Redis, DbType, in_memory, on_disk}
use hwmgmt_device_mgr_device.Persistence.Connections.{Clients, get_db_connection, on_pool}
use hwmgmt_device_mgr_device.Persistence.Records.{create, read, update, delete}
use hwmgmt_device_mgr_device.Persistence.Keys.{
  get_all_details, begin_transaction, end_transaction, transaction_in,
}
use hwmgmt_device_mgr_device.Persistence.Indexes.{get_task_list, del}
use hwmgmt_device_mgr_device.Persistence.Updates.{create_task_index}
use hwmgmt_device_mgr_device.Task.Model.{Task, Time}

-- What encoding/json and time do with tasks and their times.
pub record Codec : Type 0 where
  pub marshal : Task → Outcome String String
  pub unmarshal : String → Outcome String Task
  -- `t.String()` and `t.UnixNano()`
  pub time_text : Time → String
  pub unix_nano : Time → ℤ

abbrev pub completed_task_index : String
completed_task_index = "CompletedTaskIndex"

module _ (db : Redis) (codec : Codec) where
  -- An error's text behind what the caller was doing.
  abbrev pub because :
      {A : Type 0} → String → Exec (Clients db) Error A → Exec (Clients db) String A
  because doing m = on_error m λ e. raise (doing <> e.err_msg)

  abbrev pub connect : DbType → Exec (Clients db) String (Unit {0})
  connect flag =
      because "error while trying to connecting to DB: " (get_db_connection db flag) >> pure tt

  -- The text of the error is that of the connection, which has none.
  unfoldable pub build_completed_task_index : Task → Exec (Clients db) String (Unit {0})
  unfolding get_db_connection create_task_index
  build_completed_task_index t =
      connect in_memory
      >> on_error
          (on_pool db in_memory (
            create_task_index db completed_task_index (codec.unix_nano t.end_time)
              (t.user_name <> "::" <> codec.time_text t.end_time <> "::" <> t.id)))
          (λ e. raise "error while trying to create task index: <nil>")

  -- A failed read of the index gives no entries and no error.
  unfoldable pub get_completed_tasks_index : String → Exec (Clients db) String (List String)
  unfolding get_db_connection get_task_list
  get_completed_tasks_index search_key =
      connect in_memory
      >> on_error (on_pool db in_memory (get_task_list db completed_task_index (pos 0) (negsuc 0)))
          (λ e. pure [])

  unfoldable pub persist_task : Task → DbType → Exec (Clients db) String (Unit {0})
  unfolding get_db_connection create
  persist_task t flag =
      connect flag
      >> because "error while trying to create new task: "
          (on_pool db flag (create db codec.marshal "task" t.id t))

  -- The index entry of a task without a parent that is Completed or Exception.
  abbrev pub index_completed : Task → Exec (Clients db) String (Unit {0})
  index_completed t =
      if ((t.task_state == "Completed") || (t.task_state == "Exception")) && (t.parent_id == "")
      then build_completed_task_index t
      else pure tt

  unfoldable pub update_task_status : Task → DbType → Exec (Clients db) String (Unit {0})
  unfolding get_db_connection update build_completed_task_index
  update_task_status t flag =
      connect flag
      >> because "error while trying to update task: "
          (on_pool db flag (update db codec.marshal "task" t.id t))
      >> index_completed t

  unfoldable pub delete_task_from_db : Task → Exec (Clients db) String (Unit {0})
  unfolding get_db_connection delete
  delete_task_from_db t =
      connect in_memory
      >> because "error while trying to delete the task: "
          (on_pool db in_memory (delete db "task" t.id))

  -- The number bounds the pages of the scan.
  unfoldable pub delete_task_index : ℕ → String → Exec (Clients db) String (Unit {0})
  unfolding get_db_connection del
  delete_task_index fuel task_id =
      connect in_memory
      >> on_error (on_pool db in_memory (del db fuel completed_task_index task_id))
          (λ e. raise ("error while trying to delete the completed task index: " <> e))

  -- The database named is not looked at.
  unfoldable pub get_task_status : String → DbType → Exec (Clients db) String Task
  unfolding get_db_connection read
  get_task_status task_id flag = do
    because "error while trying to connnect to DB: " (get_db_connection db in_memory)
    text ←
        because "error while trying to read from DB: "
          (on_pool db in_memory (read db "task" task_id))
    on_error (lift (codec.unmarshal text))
        (λ e. raise ("error while trying to unmarshal task data: " <> e))

  unfoldable pub get_all_task_keys : Exec (Clients db) String (List String)
  unfolding get_db_connection get_all_details
  get_all_task_keys =
      connect in_memory
      >> because "error while fetching data: " (on_pool db in_memory (get_all_details db "task"))

  -- The callback runs between WATCH and EXEC, on the same clients.
  unfoldable pub transaction :
      String → (String → Exec (Clients db) String (Unit {0})) → Exec (Clients db) String (Unit {0})
  unfolding get_db_connection transaction_in begin_transaction end_transaction
  transaction key cb =
      connect in_memory
      >> because "error while performing transaction: " (
          transaction_in db (on_pool db in_memory (begin_transaction db key))
            (λ conn. on_pool db in_memory (end_transaction db conn)) cb key)

  unfoldable pub validate_task_user_name : String → Exec (Clients db) String (Unit {0})
  unfolding get_db_connection read
  validate_task_user_name user_name =
      connect on_disk
      >> because "error while trying to read from DB: "
          (on_pool db on_disk (read db "User" user_name))
      >> pure tt
