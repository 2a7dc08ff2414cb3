-- ===== src/Persistence/Steps.antt =====
-- The operations on single records of lib-persistence-manager/persistencemgr/redis.go, Create,
-- AddResourceData, Update and Delete, and the steps of a map from keys to texts that they stand for.
use hwmgmt_device_mgr_device.Base.{String, ◌≡◌, some}
use hwmgmt_device_mgr_device.Base.Exec.{Outcome, ok, Exec, pure, ◌>>◌}
use hwmgmt_device_mgr_device.Errors.{Error}
use hwmgmt_device_mgr_device.Persistence.Redis.{Redis, Client}
use hwmgmt_device_mgr_device.Persistence.Contents.{Keys, put_key, drop_key}
use hwmgmt_device_mgr_device.Persistence.Records.{
  record_key, create, update, add_resource_data, delete,
}

-- The operations on a single record, with its table and its key.
pub data RecordOp (D : Type 0) : Type 0 where
  creates : String → String → D → RecordOp D
  adds : String → String → D → RecordOp D
  updates : String → String → D → RecordOp D
  deletes : String → String → RecordOp D

module _ {D : Type 0} (marshal : D → Outcome String String) where
  -- The text that a value is stored as.
  abbrev pub Puts : String → D → Keys → Keys → Type 0
  Puts key x m m' = (json : String) × (marshal x ≡ ok json) × (m' ≡ put_key key json m)

  -- What an operation that succeeds has done to the records.
  abbrev pub Done : RecordOp D → Keys → Keys → Type 0
  Done (creates table key x) m m' = Puts (record_key table key) x m m'
  Done (adds table key x) m m' = Puts (record_key table key) x m m'
  Done (updates table key x) m m' =
      ((old : String) × (m (record_key table key) ≡ some old)) × Puts (record_key table key) x m m'
  Done (deletes table key) m m' =
      ((old : String) × (m (record_key table key) ≡ some old))
      × (m' ≡ drop_key (record_key table key) m)

  -- What one that fails may have done all the same.
  abbrev pub Touched : RecordOp D → Keys → Keys → Type 0
  Touched (creates table key x) m m' = Puts (record_key table key) x m m'
  Touched (adds table key x) m m' = Puts (record_key table key) x m m'
  Touched (updates table key x) m m' = Puts (record_key table key) x m m'
  Touched (deletes table key) m m' = m' ≡ drop_key (record_key table key) m

  module _ (db : Redis) where
    abbrev pub run : RecordOp D → Exec (Client db) Error (Unit {0})
    run (creates table key x) = create db marshal table key x
    run (adds table key x) = add_resource_data db marshal table key x
    run (updates table key x) = update db marshal table key x >> pure tt
    run (deletes table key) = delete db table key
