-- ===== src/Persistence/Access.antt =====
-- What the methods of lib-persistence-manager/persistencemgr/redis.go share: calls on the read pool
-- and on the write pool, the loss of the write pool, and `isDbConnectError`.
use hwmgmt_device_mgr_device.Base.{String, Bool, Option, none, some, ◌||◌, ◌==◌, if◌then◌else◌}
use hwmgmt_device_mgr_device.Base.Text.{has_suffix}
use hwmgmt_device_mgr_device.Base.Exec.{ok, panic, Exec, pure, raise}
use hwmgmt_device_mgr_device.Errors.{ErrType, Error, pack_error}
use hwmgmt_device_mgr_device.Persistence.Redis.{Redis, Client, Pool}

-- Whether a Go error is one of the connection.
unfoldable pub is_db_connect_error : String → Bool
unfolding has_suffix
is_db_connect_error e = has_suffix "connect: connection refused" e || (e == "EOF")

-- The error that a failed command gives: `DBConnFailed` with its text, or what the caller makes of
-- it.
abbrev pub connect_or : String → Error → Error
connect_or e other = if is_db_connect_error e then pack_error ErrType.db_conn_failed e else other

module _ (db : Redis) where
  -- A call of a server, which leaves the pool's state alone.
  abbrev pub call : {E A : Type 0} → Exec db.World E A → Exec (Client db) E A
  call m c = let (r, w) = m c.world in (r, record c { world = w })

  abbrev pub step : {E : Type 0} → (db.World → db.World) → Exec (Client db) E (Unit {0})
  step f c = (ok tt, record c { world = f c.world })

  -- `Get` of a pool, which panics when it is nil.
  abbrev pub get_conn : {E : Type 0} → Option Pool → Exec (Client db) E Pool
  get_conn (some p) c = pure p c
  get_conn none c = (panic "invalid memory address or nil pointer dereference", c)

  -- `p.ReadPool.Get()`
  abbrev pub read_conn : {E : Type 0} → Exec (Client db) E Pool
  read_conn c = get_conn c.pool.read_pool c

  abbrev pub conn_or : {E : Type 0} → E → Option Pool → Exec (Client db) E Pool
  conn_or e (some p) = pure p
  conn_or e none = raise e

  -- `p.WritePool`, loaded, with the caller's error when it is nil.
  abbrev pub write_conn : {E : Type 0} → E → Exec (Client db) E Pool
  write_conn e c = conn_or e c.pool.write_pool c

  -- The write pool becomes nil.
  abbrev pub drop_write_pool : {E : Type 0} → Exec (Client db) E (Unit {0})
  drop_write_pool c = pure tt (record c { pool = record c.pool { write_pool = none } })

  -- The write pool becomes nil if the error is one of the connection, and an error is returned.
  abbrev pub fail_connected : {A : Type 0} → String → Error → Exec (Client db) Error A
  fail_connected e other c =
      if is_db_connect_error e
      then raise (pack_error ErrType.db_conn_failed e)
          (record c { pool = record c.pool { write_pool = none } })
      else raise other c
