-- ===== src/Persistence/Reads.antt =====
-- What `Read` of lib-persistence-manager/persistencemgr/redis.go shows of the database.
use hwmgmt_device_mgr_device.Base.{String, ◌≡◌, refl, true, some, none, arith, ◌==◌, eq_iff}
use hwmgmt_device_mgr_device.Base.Exec.{Outcome, ok, err}
use hwmgmt_device_mgr_device.Errors.{Error, is_key_not_found}
use hwmgmt_device_mgr_device.Persistence.Redis.{Redis, Client, Pool}
use hwmgmt_device_mgr_device.Persistence.Contents.{Database, IsFor, read_conn-elim}
use hwmgmt_device_mgr_device.Persistence.Records.{read, record_key}

-- The end of a read at a key: a value is the one stored, an error that says "not found" is right,
-- and neither the contents nor the pools are changed.
pub record Shown {db : Redis} (d : Database db) (key : String) (c : Client db)
    (r : Outcome Error String × Client db) : Type 0 where
  pub value : (v : String) → r.0 ≡ ok v → d.contents c.world key ≡ some v
  pub absent :
      (e : Error) → r.0 ≡ err e → is_key_not_found e.err_num ≡ true → d.contents c.world key ≡ none
  pub kept : d.contents r.1.world ≡ d.contents c.world
  pub pool : r.1.pool ≡ c.pool

module _ {db : Redis} (d : Database db) where
  get-nil_test :
      (p : Pool) (k : String) (w : db.World) (e : String)
      → d.Leads p
      → (db.get p k w).0 ≡ err e
      → (e == "redigo: nil returned") ≡ true
      → d.contents w k ≡ none
  get-nil_test p k w e l h t = d.get-nil p k w l (ground (arith, eq_iff e "redigo: nil returned"))

  pub read-Shown :
      (table key : String) (c : Client db)
      → IsFor d c.pool
      → Shown d (record_key table key) c (read db table key c)
  unfolding read
  read-Shown table key c f =
      read_conn-elim _ c (Shown d (record_key table key) c)
        (λ p e.
          let k = record_key table key in
          record {
            value = λ v h. d.get-bulk p k c.world (f.reads p e) (ground arith);
            absent = λ x h n. grind (
              arith,
              d.get-null p k c.world (f.reads p e),
              λ (y : String). get-nil_test p k c.world y (f.reads p e),
            );
            kept = ground (arith, d.get-contents p k c.world);
            pool = ground arith;
          })
        (λ m. record { value = λ v h. cc; absent = λ e h n. cc; kept = refl; pool = refl })
