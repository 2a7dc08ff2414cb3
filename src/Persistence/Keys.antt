-- ===== src/Persistence/Keys.antt =====
-- Operations of lib-persistence-manager/persistencemgr/redis.go on many keys or on none: the KEYS
-- queries, DeleteServer, GetResourceDetails, CleanUpDB, Transaction and Ping.
use hwmgmt_device_mgr_device.Base.{String, none, some, List, [], ◌∷◌, map, ◌==◌, if◌then◌else◌}
use hwmgmt_device_mgr_device.Base.Text.{◌<>◌, trim_prefix, last_or, cut}
use hwmgmt_device_mgr_device.Base.Exec.{
  ok, err, panic, Exec, pure, raise, lift, on_error, ◌>>=◌, ◌>>◌,
}
use hwmgmt_device_mgr_device.Errors.{ErrType, Error, pack_error}
use hwmgmt_device_mgr_device.Persistence.Redis.{Redis, Client, Pool}
use hwmgmt_device_mgr_device.Persistence.Access.{
  is_db_connect_error, connect_or, call, step, get_conn, read_conn, write_conn, fail_connected,
}
use hwmgmt_device_mgr_device.Persistence.Records.{read}

abbrev collect_error : String → Error
collect_error e =
    pack_error ErrType.undefined_error_type ("error while trying to collect data: " <> e)

abbrev undefined : String → Error
undefined = pack_error ErrType.undefined_error_type

module _ (db : Redis) where
  -- KEYS with a pattern, on the read pool.
  abbrev pub query : String → Exec (Client db) Error (List String)
  query pattern = do
    conn ← read_conn db
    on_error (call db (db.keys conn pattern)) (λ e. raise (connect_or e (collect_error e)))

  unfoldable pub get_all_details : String → Exec (Client db) Error (List String)
  get_all_details table = do
    keys ← query (table <> ":*")
    pure (map (trim_prefix (table <> ":")) keys)

  unfoldable pub get_all_matching_details : String → String → Exec (Client db) Error (List String)
  get_all_matching_details table pattern = do
    keys ← query (table <> ":*" <> pattern <> "*")
    pure (map (trim_prefix (table <> ":")) keys)

  -- Only an error of the connection ends the loop.
  unfoldable pub delete_keys : Pool → List String → Exec (Client db) Error (Unit {0})
  delete_keys conn [] c = pure tt c
  delete_keys conn (k ∷ ks) c =
      let (r, c') = call db (db.del conn k) c in
      let later = delete_keys conn ks c' in
      elim r [
        | ok _ ↦ later
        | err e ↦ if is_db_connect_error e then fail_connected db e (undefined e) c' else later
        | panic m ↦ (panic m, c')
      ]

  unfoldable pub delete_server : String → Exec (Client db) Error (Unit {0})
  unfolding delete_keys
  delete_server key = do
    keys ← query key
    conn ← write_conn db (undefined "error while trying to delete data: WritePool is nil ")
    delete_keys conn keys

  -- The last key found is read. A key without a colon has no second part.
  unfoldable pub get_resource_details : String → Exec (Client db) Error String
  unfolding read
  get_resource_details key = do
    keys ← query ("*" <> key)
    if last_or keys "" == ""
        then raise
            (pack_error ErrType.db_key_not_found ("no data with the with key " <> key <> " found"))
        else elim (cut b':' (last_or keys "")) [
          | some (table, rest) ↦ read db table rest
          | none ↦ lift (panic "index out of range [1] with length 1")
        ]

  -- The write pool is used as it is.
  unfoldable pub clean_up_db : Exec (Client db) Error (Unit {0})
  clean_up_db c =
      (do
        conn ← get_conn db c.pool.write_pool
        on_error (call db (db.flush_all conn)) (λ e. fail_connected db e (collect_error e)))
        c

  -- WATCH and MULTI of a transaction, on a connection of its own. The error of MULTI is dropped.
  unfoldable pub begin_transaction : String → Exec (Client db) Error Pool
  begin_transaction key = do
    conn ←
        write_conn db (undefined "error while trying to Write Transaction data: WritePool is nil")
    on_error (call db (db.watch conn key)) (λ e. fail_connected db e (undefined e))
    step db (db.multi conn)
    pure conn

  unfoldable pub end_transaction : Pool → Exec (Client db) Error (Unit {0})
  end_transaction conn = on_error (call db (db.exec conn)) (λ e. raise (undefined e))

  -- A transaction in a state where its callback can run: the callback's calls find the pools
  -- themselves and get their own connections.
  unfoldable pub transaction_in :
      {S : Type 0}
      → Exec S Error Pool
      → (Pool → Exec S Error (Unit {0}))
      → (String → Exec S String (Unit {0}))
      → String
      → Exec S Error (Unit {0})
  transaction_in begin end cb key = do
    conn ← begin
    on_error (cb key) (λ e. raise (undefined e))
    end conn

  unfoldable pub transaction :
      String → (String → Exec (Client db) String (Unit {0})) → Exec (Client db) Error (Unit {0})
  unfolding transaction_in begin_transaction end_transaction
  transaction key cb = transaction_in (begin_transaction key) end_transaction cb key

  unfoldable pub ping : Exec (Client db) String (Unit {0})
  ping = do
    reader ← read_conn db
    on_error (call db (db.ping reader)) (λ e. raise "error while pinging DB with read connection")
    writer ← write_conn db "error while pinging DB with read connection: WritePool is nil "
    on_error (call db (db.ping writer))
        (λ e. raise ("error while pinging DB with read connection: WritePool is nil " <> e))
