-- ===== src/Persistence/Puts.antt =====
-- How an operation on a single record of lib-persistence-manager/persistencemgr/redis.go can end, and
-- the part that Create, AddResourceData and Update share: the value is marshalled and put by SET.
use hwmgmt_device_mgr_device.Base.{String, ◌≡◌, ◌∙◌, ◌≢◌, ◌⊎◌, inl, inr, ap, none, arith}
use hwmgmt_device_mgr_device.Base.Exec.{Outcome, ok, err, panic, bind-elim, ◌>>=◌}
use hwmgmt_device_mgr_device.Errors.{Error}
use hwmgmt_device_mgr_device.Persistence.Redis.{Redis, Client, Pool, ConnPool}
use hwmgmt_device_mgr_device.Persistence.Contents.{Keys, Database, KeptOrDropped, put_key}
use hwmgmt_device_mgr_device.Persistence.Records.{to_json, write}
use hwmgmt_device_mgr_device.Persistence.Steps.{RecordOp, Puts, Done, Touched}

module _ {db : Redis} (d : Database db) where
  -- The end of a SET: done, with the pools as they were; or reported as failed, and done or not.
  abbrev pub Put : String → String → Client db → Outcome Error (Unit {0}) × Client db → Type 0
  Put key text c r =
      ((r.0 ≡ ok tt)
        × (d.contents r.1.world ≡ put_key key text (d.contents c.world))
        × (r.1.pool ≡ c.pool))
      ⊎ ((r.0 ≢ ok tt)
          × ((d.contents r.1.world ≡ d.contents c.world)
              ⊎ (d.contents r.1.world ≡ put_key key text (d.contents c.world)))
          × KeptOrDropped c.pool r.1.pool)

  pub write-Put :
      (p : Pool) (key text : String) (c : Client db)
      → d.Leads p
      → Put key text c (write db p key text c)
  unfolding write
  write-Put p key text c l =
      ground (arith, d.set-ok p key text c.world l, d.set-any p key text c.world l)

module _ {D : Type 0} (marshal : D → Outcome String String) {db : Redis} (d : Database db) where
  -- The end of an operation, as a step of the map and of the pools.
  abbrev pub Refined : RecordOp D → Client db → Outcome Error (Unit {0}) × Client db → Type 0
  Refined op c r =
      ((r.0 ≡ ok tt)
        × Done marshal op (d.contents c.world) (d.contents r.1.world)
        × (r.1.pool ≡ c.pool))
      ⊎ ((r.0 ≢ ok tt)
          × ((d.contents r.1.world ≡ d.contents c.world)
              ⊎ Touched marshal op (d.contents c.world) (d.contents r.1.world))
          × KeptOrDropped c.pool r.1.pool)

  -- An operation that has changed nothing and fails.
  pub failed :
      (op : RecordOp D) (c : Client db) (r : Outcome Error (Unit {0}) × Client db)
      → r.0 ≢ ok tt
      → d.contents r.1.world ≡ d.contents c.world
      → r.1.pool ≡ c.pool
      → Refined op c r
  failed op c r h k p = inr (h, inl k, inl p)

  -- The end of a SET, as the end of an operation that puts a value.
  pub Put-Refined :
      (op : RecordOp D) (key : String) (x : D) (json : String) (c c' : Client db)
      (r : Outcome Error (Unit {0}) × Client db)
      → ((m' : Keys)
          → Puts marshal key x (d.contents c.world) m'
          → Done marshal op (d.contents c.world) m' × Touched marshal op (d.contents c.world) m')
      → marshal x ≡ ok json
      → d.contents c'.world ≡ d.contents c.world
      → c'.pool ≡ c.pool
      → Put d key json c' r
      → Refined op c r
  Put-Refined op key x json c c' r is_put j k q (inl (h, w, p)) =
      inl (h, (is_put _ (json, j, w ∙ ap (put_key key json) k)).0, p ∙ q)
  Put-Refined op key x json c c' r is_put j k q (inr (h, w, p)) = inr (h, touched w, pools p)
    where
      touched :
          (d.contents r.1.world ≡ d.contents c'.world)
            ⊎ (d.contents r.1.world ≡ put_key key json (d.contents c'.world))
          → (d.contents r.1.world ≡ d.contents c.world)
            ⊎ Touched marshal op (d.contents c.world) (d.contents r.1.world)
      touched (inl e) = inl (e ∙ k)
      touched (inr e) = inr (is_put _ (json, j, e ∙ ap (put_key key json) k)).1

      pools : KeptOrDropped c'.pool r.1.pool → KeptOrDropped c.pool r.1.pool
      pools (inl e) = inl (e ∙ q)
      pools (inr e) = inr (e ∙ ap (λ (z : ConnPool). record z { write_pool = none }) q)

  pub to_json-ok :
      (x : D) (c : Client db) {json : String}
      → (to_json db marshal x c).0 ≡ ok json
      → marshal x ≡ ok json
  to_json-ok x c h = ground arith

  pub to_json-state : (x : D) (c : Client db) → (to_json db marshal x c).1 ≡ c
  to_json-state x c = ground arith

  -- A value is marshalled and put, on a connection that is there.
  pub json-Refined :
      (op : RecordOp D) (key : String) (x : D) (c c' : Client db) (p : Pool)
      → ((m' : Keys)
          → Puts marshal key x (d.contents c.world) m'
          → Done marshal op (d.contents c.world) m' × Touched marshal op (d.contents c.world) m')
      → d.contents c'.world ≡ d.contents c.world
      → c'.pool ≡ c.pool
      → d.Leads p
      → Refined op c ((to_json db marshal x >>= write db p key) c')
  json-Refined op key x c c' p is_put k q l =
      bind-elim (to_json db marshal x) _ c' (Refined op c)
        (λ json j. rw (to_json-state x c') (
          Put-Refined op key x json c c' _ is_put (to_json-ok x c' j) k q
            (write-Put d p key json c' l)))
        (λ y j. rw (to_json-state x c') (failed op c (err y, c') (λ h. cc) k q))
        (λ y j. rw (to_json-state x c') (failed op c (panic y, c') (λ h. cc) k q))
