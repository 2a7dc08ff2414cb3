-- ===== src/Task/Persisted/Read.antt =====
-- GetTaskStatus of svc-task/tmodel/tmodel.go while the pools of the in-memory database are open.
use hwmgmt_device_mgr_device.Base.{String, ◌≡◌, ap, some, arith, eq_refl}
use hwmgmt_device_mgr_device.Base.Text.{◌<>◌}
use hwmgmt_device_mgr_device.Base.Exec.{
  Outcome, ok, pure, raise, continue, or_else, bind-ok, reworded,
}
use hwmgmt_device_mgr_device.Errors.{Error}
use hwmgmt_device_mgr_device.Persistence.Redis.{Redis, Client, Pool, ConnPool, DbType, in_memory}
use hwmgmt_device_mgr_device.Persistence.Contents.{Keys, Database, IsFor, put_key}
use hwmgmt_device_mgr_device.Persistence.Connections.{
  Clients, the_pool, save_pool, get_db_connection, on_pool,
}
use hwmgmt_device_mgr_device.Persistence.Records.{read, record_key}
use hwmgmt_device_mgr_device.Persistence.Recovery.{get_db_connection-held}
use hwmgmt_device_mgr_device.Persistence.Reads.{read-Shown}
use hwmgmt_device_mgr_device.Task.Model.{Task}
use hwmgmt_device_mgr_device.Task.Database.{Codec, connect, because, get_task_status}

-- The client at which a method of the pool works.
abbrev pub client : {db : Redis} → ConnPool → Clients db → Client db
client p s = record { pool = p; world = s.world }

module _ {db : Redis} (d : Database db) (codec : Codec) where
  -- Both pools of the in-memory database are open and lead to it.
  pub record IsOpen (s : Clients db) : Type 0 where
    pub pools : ConnPool
    pub reader : Pool
    pub writer : Pool
    pub held : the_pool db in_memory s ≡ some pools
    pub reads : pools.read_pool ≡ some reader
    pub writes : pools.write_pool ≡ some writer
    pub leads : IsFor d pools

  pub connect-open :
      (doing : String) (s : Clients db) (o : IsOpen s)
      → because db codec doing (get_db_connection db in_memory) s
        ≡ (ok o.pools, save_pool db in_memory (client o.pools s) s)
  connect-open doing s o =
      ap
        (λ (z : Outcome Error ConnPool × Clients db).
          or_else z.0 (λ e. raise (doing <> e.err_msg)) z.1)
        (get_db_connection-held db in_memory s o.pools o.reader o.writer o.held o.reads o.writes)

  pub connect-done :
      (s : Clients db) (o : IsOpen s)
      → connect db codec in_memory s ≡ (ok tt, save_pool db in_memory (client o.pools s) s)
  connect-done s o =
      ap (λ (z : Outcome String ConnPool × Clients db). continue z.0 (λ _. pure tt) z.1)
        (connect-open "error while trying to connecting to DB: " s o)

  -- A task stands in the database, marshalled.
  abbrev pub Stands : Task → Clients db → Type 0
  Stands t s =
      (json : String) × (codec.marshal t ≡ ok json)
      × (d.contents s.world (record_key "task" t.id) ≡ some json)

  pub get_task_status-Stands :
      (t t' : Task) (s : Clients db) (flag : DbType)
      → IsOpen s
      → Stands t s
      → ((text : String) → codec.marshal t ≡ ok text → codec.unmarshal text ≡ ok t)
      → (get_task_status db codec t.id flag s).0 ≡ ok t'
      → t' ≡ t
  unfolding get_task_status
  get_task_status-Stands t t' s flag o (json, j, at) law h =
      let s' = save_pool db in_memory (client o.pools s) s in
      let shown = read-Shown d "task" t.id (client o.pools s) o.leads in
      let e = connect-open "error while trying to connnect to DB: " s o in
      let (_, _, h₁) =
        bind-ok
          (because db codec "error while trying to connnect to DB: "
            (get_db_connection db in_memory))
          _ s h in
      let h₂ = rw (ap (λ (z : Outcome String ConnPool × Clients db). z.1) e) at h₁ in
      let (v, g, h₃) =
        bind-ok
          (because db codec "error while trying to read from DB: "
            (on_pool db in_memory (read db "task" t.id)))
          _ s' h₂ in
      let found =
        shown.value v ((reworded (on_pool db in_memory (read db "task" t.id)) _ s').1 v g) in
      let same : v ≡ json = ground (arith, found, at) in ground (arith, same, law json j, h₃)

  put_key_self : (k v : String) (m : Keys) → put_key k v m k ≡ some v
  put_key_self k v m = rw (eq_refl k)

  -- After a method of the pool that has put the task, and left the pools as they were.
  pub stays :
      (t : Task) (s : Clients db) (o : IsOpen s) (c : Client db)
      → c.pool ≡ o.pools
      → ((json : String) × (codec.marshal t ≡ ok json)
          × (d.contents c.world ≡ put_key (record_key "task" t.id) json (d.contents s.world)))
      → IsOpen (save_pool db in_memory c s) × Stands t (save_pool db in_memory c s)
  stays t s o c e (json, j, put) = (
    record {
      pools = o.pools;
      reader = o.reader;
      writer = o.writer;
      held = ap some e;
      reads = o.reads;
      writes = o.writes;
      leads = o.leads;
    },
    (json, j, rw put (put_key_self (record_key "task" t.id) json (d.contents s.world))),
  )
