-- ===== src/Persistence/Writes.antt =====
-- What the operations on single records of lib-persistence-manager/persistencemgr/redis.go do to the
-- database: Create, AddResourceData, Update and Delete as steps of a map from keys to texts.
use hwmgmt_device_mgr_device.Base.{String, ◌≡◌, refl, some, arith}
use hwmgmt_device_mgr_device.Base.Exec.{
  Outcome, ok, err, panic, Exec, pure, continue, bind-elim, attempt-elim, ◌>>=◌, ◌>>◌,
}
use hwmgmt_device_mgr_device.Errors.{Error}
use hwmgmt_device_mgr_device.Persistence.Redis.{Redis, Client}
use hwmgmt_device_mgr_device.Persistence.Access.{write_conn}
use hwmgmt_device_mgr_device.Persistence.Contents.{Database, IsFor, write_conn-elim}
use hwmgmt_device_mgr_device.Persistence.Records.{
  read, record_key, check_absent, to_json, no_write_pool, write, create, update, add_resource_data,
  delete,
}
use hwmgmt_device_mgr_device.Persistence.Reads.{read-Shown}
use hwmgmt_device_mgr_device.Persistence.Steps.{RecordOp, creates, adds, updates, deletes, run}
use hwmgmt_device_mgr_device.Persistence.Puts.{
  write-Put, Refined, failed, Put-Refined, to_json-ok, to_json-state, json-Refined,
}

module _ {D : Type 0} (marshal : D → Outcome String String) {db : Redis} (d : Database db) where
  create-Refined :
      (table key : String) (x : D) (c : Client db)
      → IsFor d c.pool
      → Refined marshal d (creates table key x) c (create db marshal table key x c)
  unfolding create check_absent
  create-Refined table key x c f =
      let shown = read-Shown d table key c f in
      let op : RecordOp D = creates table key x in
      let c' = (check_absent db table key c).1 in
      write_conn-elim _ _ c (Refined marshal d op c)
        (λ p e.
          bind-elim (check_absent db table key) _ c (Refined marshal d op c)
            (λ _ a.
              json-Refined marshal d op (record_key table key) x c c' p (λ m' h. (h, h)) shown.kept
                shown.pool (f.writes p e))
            (λ y a. failed marshal d op c (err y, c') (λ h. cc) shown.kept shown.pool)
            (λ y a. failed marshal d op c (panic y, c') (λ h. cc) shown.kept shown.pool))
        (failed marshal d op c _ (λ h. cc) refl refl)

  add-Refined :
      (table key : String) (x : D) (c : Client db)
      → IsFor d c.pool
      → Refined marshal d (adds table key x) c (add_resource_data db marshal table key x c)
  unfolding add_resource_data
  add-Refined table key x c f =
      let op : RecordOp D = adds table key x in
      write_conn-elim _ _ c (Refined marshal d op c)
        (λ p e.
          json-Refined marshal d op (record_key table key) x c c p (λ m' h. (h, h)) refl refl
            (f.writes p e))
        (failed marshal d op c _ (λ h. cc) refl refl)

  delete-Refined :
      (table key : String) (c : Client db)
      → IsFor d c.pool
      → Refined marshal d (deletes table key) c (delete db table key c)
  unfolding delete
  delete-Refined table key c f =
      let shown = read-Shown d table key c f in
      let op : RecordOp D = deletes table key in
      let k = record_key table key in
      let c' = (read db table key c).1 in
      write_conn-elim _ _ c (Refined marshal d op c)
        (λ p e.
          bind-elim (read db table key) _ c (Refined marshal d op c)
            (λ v a. ground (
              arith,
              shown.value v,
              shown.kept,
              shown.pool,
              d.del-ok p k c'.world (f.writes p e),
              d.del-any p k c'.world (f.writes p e),
            ))
            (λ y a. failed marshal d op c (err y, c') (λ h. cc) shown.kept shown.pool)
            (λ y a. failed marshal d op c (panic y, c') (λ h. cc) shown.kept shown.pool))
        (failed marshal d op c _ (λ h. cc) refl refl)

  -- The end of an update, whose value is the key.
  abbrev without : Outcome Error String → Outcome Error (Unit {0})
  without (ok v) = ok tt
  without (err e) = err e
  without (panic m) = panic m

  abbrev Ends : RecordOp D → Client db → Outcome Error String × Client db → Type 0
  Ends op c r = Refined marshal d op c (without r.0, r.1)

  Ends-Refined :
      (op : RecordOp D) (c : Client db) (m : Exec (Client db) Error String)
      → Ends op c (m c)
      → Refined marshal d op c ((m >> pure tt) c)
  Ends-Refined op c m = from_outcome (m c).0
    where
      from_outcome :
          (o : Outcome Error String)
          → Ends op c (o, (m c).1)
          → Refined marshal d op c (continue o (λ _. pure tt) (m c).1)
      from_outcome (ok v) h = h
      from_outcome (err e) h = h
      from_outcome (panic x) h = h

  keyed :
      (op : RecordOp D) (c : Client db) (m : Exec (Client db) Error (Unit {0})) (key : String)
      (c' : Client db)
      → Refined marshal d op c (m c')
      → Ends op c ((m >> pure key) c')
  keyed op c m key c' = from_outcome (m c').0
    where
      from_outcome :
          (o : Outcome Error (Unit {0}))
          → Refined marshal d op c (o, (m c').1)
          → Ends op c (continue o (λ _. pure key) (m c').1)
      from_outcome (ok v) h = h
      from_outcome (err e) h = h
      from_outcome (panic x) h = h

  -- The second half of Update, after the read.
  put_json-Ends :
      (table key : String) (x : D) (c c' : Client db) (old : String)
      → d.contents c.world (record_key table key) ≡ some old
      → d.contents c'.world ≡ d.contents c.world
      → c'.pool ≡ c.pool
      → IsFor d c.pool
      → Ends (updates table key x) c (
          (do
            json ← to_json db marshal x
            conn ← write_conn db no_write_pool
            write db conn (record_key table key) json
            pure (record_key table key))
            c')
  put_json-Ends table key x c c' old o k q f =
      let op : RecordOp D = updates table key x in
      bind-elim (to_json db marshal x) _ c' (Ends op c)
        (λ json j. rw (to_json-state marshal d x c') (
          write_conn-elim _ _ c' (Ends op c)
            (λ p e. keyed op c (write db p (record_key table key) json) (record_key table key) c' (
              Put-Refined marshal d op (record_key table key) x json c c' _
                (λ m' h. (((old, o), h), h)) (to_json-ok marshal d x c' j) k q
                (write-Put d p (record_key table key) json c' (f.writes p (rw q at e)))))
            (failed marshal d op c (err no_write_pool, c') (λ h. cc) k q)))
        (λ y j. rw (to_json-state marshal d x c') (failed marshal d op c (err y, c') (λ h. cc) k q))
        (λ y j.
          rw (to_json-state marshal d x c') (failed marshal d op c (panic y, c') (λ h. cc) k q))

  update-Ends :
      (table key : String) (x : D) (c : Client db)
      → IsFor d c.pool
      → Ends (updates table key x) c (update db marshal table key x c)
  unfolding update
  update-Ends table key x c f =
      let shown = read-Shown d table key c f in
      let op : RecordOp D = updates table key x in
      let c' = (read db table key c).1 in
      attempt-elim (read db table key) _ _ c (Ends op c)
        (λ v a. put_json-Ends table key x c c' v (shown.value v a) shown.kept shown.pool f)
        (λ y a. failed marshal d op c (err _, c') (λ h. cc) shown.kept shown.pool)
        (λ y a. failed marshal d op c (panic y, c') (λ h. cc) shown.kept shown.pool)

  -- Each operation on a record is a step of the map from keys to texts, whatever the server and the
  -- network do: one that succeeds has put the marshalled value under the record's key, over a value
  -- that was there in the case of Update, or has dropped a key that was there; one that does not
  -- succeed has done this or nothing, and may have lost the write pool. No other key is changed, and
  -- the pools are otherwise left as they are.
  pub run-Refined :
      (op : RecordOp D) (c : Client db)
      → IsFor d c.pool
      → Refined marshal d op c (run marshal db op c)
  run-Refined (creates table key x) c f = create-Refined table key x c f
  run-Refined (adds table key x) c f = add-Refined table key x c f
  run-Refined (updates table key x) c f =
      Ends-Refined (updates table key x) c (update db marshal table key x)
        (update-Ends table key x c f)
  run-Refined (deletes table key) c f = delete-Refined table key c f
