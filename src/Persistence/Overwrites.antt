-- ===== src/Persistence/Overwrites.antt =====
-- Create of lib-persistence-manager/persistencemgr/redis.go where the read that comes first fails.
use hwmgmt_device_mgr_device.Base.{String, ◌≡◌, false, some, arith, ◌==◌}
use hwmgmt_device_mgr_device.Base.Exec.{Outcome, ok, err}
use hwmgmt_device_mgr_device.Persistence.Redis.{Redis, Client, Pool}
use hwmgmt_device_mgr_device.Persistence.Access.{is_db_connect_error}
use hwmgmt_device_mgr_device.Persistence.Contents.{Database, IsFor, put_key}
use hwmgmt_device_mgr_device.Persistence.Records.{read, record_key, check_absent, write, create}

module _ {D : Type 0} (marshal : D → Outcome String String) {db : Redis} (d : Database db) where
  -- Create does not make sure that the key is free: where the GET of its read fails with an error that
  -- is neither a refused connection nor an end of file nor the report of a missing key, and the SET
  -- succeeds, Create succeeds, and the new value has replaced whatever was stored under the key.
  pub create-put_key :
      (table key : String) (x : D) (json : String) (c : Client db) (r p : Pool) (e : String)
      → IsFor d c.pool
      → c.pool.read_pool ≡ some r
      → c.pool.write_pool ≡ some p
      → (db.get r (record_key table key) c.world).0 ≡ err e
      → (e == "redigo: nil returned") ≡ false
      → is_db_connect_error e ≡ false
      → marshal x ≡ ok json
      → (db.set p (record_key table key) json (db.get r (record_key table key) c.world).1).0 ≡ ok tt
      → ((create db marshal table key x c).0 ≡ ok tt)
        × (d.contents (create db marshal table key x c).1.world
            ≡ put_key (record_key table key) json (d.contents c.world))
  unfolding create check_absent write read
  create-put_key table key x json c r p e f i j g n m k h = ground (
    arith,
    d.set-ok p (record_key table key) json (db.get r (record_key table key) c.world).1
        (f.writes p j) h,
    d.get-contents r (record_key table key) c.world,
  )
