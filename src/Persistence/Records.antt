-- ===== src/Persistence/Records.antt =====
-- Single records of lib-persistence-manager/persistencemgr/redis.go: Create, Update, Read,
-- FindOrNull, Delete and AddResourceData. A record stands under the key "table:key".
use hwmgmt_device_mgr_device.Base.{String, ◌==◌, if◌then◌else◌}
use hwmgmt_device_mgr_device.Base.Text.{◌<>◌}
use hwmgmt_device_mgr_device.Base.Exec.{
  Outcome, ok, err, panic, Exec, pure, raise, lift, on_error, ◌>>=◌, ◌>>◌,
}
use hwmgmt_device_mgr_device.Errors.{ErrType, Error, pack_error, is_key_not_found, is_conn_failed}
use hwmgmt_device_mgr_device.Persistence.Redis.{Redis, Client, Pool, Reply, null, bulk, other}
use hwmgmt_device_mgr_device.Persistence.Access.{
  connect_or, call, read_conn, write_conn, drop_write_pool, fail_connected,
}

abbrev pub record_key : String → String → String
record_key table key = table <> ":" <> key

abbrev no_data : String → Error
no_data key = pack_error ErrType.db_key_not_found ("no data with the with key " <> key <> " found")

abbrev fetch_error : String → String → Error
fetch_error key e =
    if e == "redigo: nil returned"
    then no_data key
    else connect_or e
        (pack_error ErrType.db_key_fetch_failed ("error while trying to collect data: " <> e))

-- The text of a reply: `redis.String` and what precedes it.
abbrev text_of : String → Reply → Outcome Error String
text_of key null = err (no_data key)
text_of key (bulk s) = ok s
text_of key (other e) = err (
    pack_error ErrType.undefined_error_type
      ("error while trying to convert the data into string: " <> e))

-- What Create makes of the read that comes first.
abbrev pub admit : String → Outcome Error String → Outcome Error (Unit {0})
admit key (err e) =
    if is_conn_failed e.err_num
    then err (pack_error e.err_num "error: db connection failed")
    else ok tt
admit key (ok value) =
    if value == ""
    then ok tt
    else err (
        pack_error ErrType.db_key_already_exist
          ("error: data with key " <> key <> " already exists"))
admit key (panic m) = panic m

abbrev pub json_error : String → Error
json_error e = pack_error ErrType.undefined_error_type ("Write to DB in json form failed: " <> e)

abbrev pub no_write_pool : Error
no_write_pool = pack_error ErrType.undefined_error_type "Update : Writepool is nil "

module _ (db : Redis) where
  unfoldable pub read : String → String → Exec (Client db) Error String
  read table key = do
    conn ← read_conn db
    reply ← on_error (call db (db.get conn (record_key table key))) (λ e. raise (fetch_error key e))
    lift (text_of key reply)

  -- `DBKeyNotFound` becomes the empty text.
  unfoldable pub find_or_null : String → String → Exec (Client db) Error String
  unfolding read
  find_or_null table key =
      on_error (read table key) λ e. if is_key_not_found e.err_num then pure "" else raise e

  -- The read of Create.
  unfoldable pub check_absent : String → String → Exec (Client db) Error (Unit {0})
  unfolding read
  check_absent table key c = let (value, c') = read table key c in (admit key value, c')

  -- SET on the write pool, which becomes nil when SET fails.
  unfoldable pub write : Pool → String → String → Exec (Client db) Error (Unit {0})
  write conn save_id text = on_error (call db (db.set conn save_id text)) λ e.
      drop_write_pool db
      >> raise (pack_error ErrType.undefined_error_type ("Write to DB failed : " <> e))

  module _ {D : Type 0} (marshal : D → Outcome String String) where
    -- `json.Marshal(data)`
    abbrev pub to_json : D → Exec (Client db) Error String
    to_json x = on_error (lift (marshal x)) λ e. raise (json_error e)

    unfoldable pub create : String → String → D → Exec (Client db) Error (Unit {0})
    unfolding check_absent write
    create table key x = do
      conn ← write_conn db (pack_error ErrType.undefined_error_type "Create : WritePool is nil ")
      check_absent table key
      json ← to_json x
      write conn (record_key table key) json

    unfoldable pub update : String → String → D → Exec (Client db) Error String
    unfolding read write
    update table key x = do
      on_error (read table key) (λ e. raise (
          if is_key_not_found e.err_num
          then pack_error e.err_num ("error: data with key " <> key <> " does not exist")
          else e))
      json ← to_json x
      conn ← write_conn db no_write_pool
      write conn (record_key table key) json
      pure (record_key table key)

    unfoldable pub add_resource_data : String → String → D → Exec (Client db) Error (Unit {0})
    unfolding write
    add_resource_data table key x = do
      conn ← write_conn db (pack_error ErrType.undefined_error_type "WritePool is nil")
      json ← to_json x
      write conn (record_key table key) json

  unfoldable pub delete : String → String → Exec (Client db) Error (Unit {0})
  unfolding read
  delete table key = do
    conn ← write_conn db (
        pack_error ErrType.undefined_error_type
          "error while trying to delete data: WritePool is nil ")
    read table key
    on_error (call db (db.del conn (record_key table key))) (λ e.
        fail_connected db e
          (pack_error ErrType.undefined_error_type ("error while trying to delete data: " <> e)))
