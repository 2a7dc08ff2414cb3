-- ===== src/Task/Persisted/Written.antt =====
-- What PersistTask and UpdateTaskStatus of svc-task/tmodel/tmodel.go have stored when they succeed.
use hwmgmt_device_mgr_device.Base.{
  String, ◌≡◌, sym, ap, ◌∙◌, inl, inr, some, arith, ℤ, Bool, true, false, ◌==◌, ◌&&◌, ◌||◌,
  if◌then◌else◌,
}
use hwmgmt_device_mgr_device.Base.Text.{◌<>◌}
use hwmgmt_device_mgr_device.Base.Exec.{
  Outcome, ok, pure, raise, bind-ok, then-ok, reworded, on_error, ◌>>◌, value-dropped,
}
use hwmgmt_device_mgr_device.Errors.{Error}
use hwmgmt_device_mgr_device.Persistence.Redis.{Redis, Client, Pool, DbType, in_memory, int}
use hwmgmt_device_mgr_device.Persistence.Contents.{Database}
use hwmgmt_device_mgr_device.Persistence.Connections.{Clients, save_pool, on_pool}
use hwmgmt_device_mgr_device.Persistence.Records.{create, update}
use hwmgmt_device_mgr_device.Persistence.Puts.{Refined}
use hwmgmt_device_mgr_device.Persistence.Steps.{creates, updates}
use hwmgmt_device_mgr_device.Persistence.Writes.{run-Refined}
use hwmgmt_device_mgr_device.Task.Model.{Task}
use hwmgmt_device_mgr_device.Task.Database.{
  Codec, connect, because, persist_task, update_task_status, get_task_status, index_completed,
  build_completed_task_index, completed_task_index,
}
use hwmgmt_device_mgr_device.Persistence.Updates.{create_task_index}
use hwmgmt_device_mgr_device.Task.Persisted.Read.{
  client, IsOpen, Stands, connect-done, get_task_status-Stands, stays,
}

module _ {db : Redis} (d : Database db) (codec : Codec) where
  created :
      (t : Task) (s : Clients db) (o : IsOpen d codec s) (r : Outcome Error (Unit {0}) × Client db)
      → Refined codec.marshal d (creates "task" t.id t) (client o.pools s) r
      → r.0 ≡ ok tt
      → IsOpen d codec (save_pool db in_memory r.1 s)
        × Stands d codec t (save_pool db in_memory r.1 s)
  created t s o r (inl (_, done, p)) h = stays d codec t s o r.1 p done
  created t s o r (inr (fails, _, _)) h = absurd (fails h)

  persist_task-Stands :
      (t : Task) (s : Clients db)
      → IsOpen d codec s
      → (persist_task db codec t in_memory s).0 ≡ ok tt
      → IsOpen d codec (persist_task db codec t in_memory s).1
        × Stands d codec t (persist_task db codec t in_memory s).1
  unfolding persist_task
  persist_task-Stands t s o h =
      let s' = save_pool db in_memory (client o.pools s) s in
      let c = client o.pools s in
      let put = on_pool db in_memory (create db codec.marshal "task" t.id t) in
      let words = reworded put (λ e. "error while trying to create new task: " <> e.err_msg) s' in
      let e =
        then-ok (connect db codec in_memory)
          (λ _. because db codec "error while trying to create new task: " put) s s'
          (connect-done d codec s o) in
      let done =
        words.1 tt (ap (λ (z : Outcome String (Unit {0}) × Clients db). z.0) (sym e) ∙ h) in
      rw (ap (λ (z : Outcome String (Unit {0}) × Clients db). z.1) e ∙ words.0)
        (created t s o _ (run-Refined codec.marshal d (creates "task" t.id t) c o.leads) done)

  updated :
      (t : Task) (s : Clients db) (o : IsOpen d codec s) (r : Outcome Error (Unit {0}) × Client db)
      → Refined codec.marshal d (updates "task" t.id t) (client o.pools s) r
      → r.0 ≡ ok tt
      → IsOpen d codec (save_pool db in_memory r.1 s)
        × Stands d codec t (save_pool db in_memory r.1 s)
  updated t s o r (inl (_, done, p)) h = stays d codec t s o r.1 p done.1
  updated t s o r (inr (fails, _, _)) h = absurd (fails h)

  create_task_index-ok :
      (index : String) (value : ℤ) (key : String) (c : Client db) (p : Pool)
      → c.pool.write_pool ≡ some p
      → (create_task_index db index value key c).0 ≡ ok tt
      → ((create_task_index db index value key c).1.pool ≡ c.pool)
        × (d.contents (create_task_index db index value key c).1.world ≡ d.contents c.world)
  unfolding create_task_index
  create_task_index-ok index value key c p e h =
      ground (arith, d.zadd-contents p index (int value) key c.world)

  -- The index entry of a task that is over changes no stored task.
  build_index-Stands :
      (t : Task) (s : Clients db)
      → IsOpen d codec s
      → Stands d codec t s
      → (build_completed_task_index db codec t s).0 ≡ ok tt
      → IsOpen d codec (build_completed_task_index db codec t s).1
        × Stands d codec t (build_completed_task_index db codec t s).1
  unfolding build_completed_task_index
  build_index-Stands t s o (json, j, at) h =
      let s' = save_pool db in_memory (client o.pools s) s in
      let c = client o.pools s in
      let value = codec.unix_nano t.end_time in
      let key = t.user_name <> "::" <> codec.time_text t.end_time <> "::" <> t.id in
      let m = on_pool db in_memory (create_task_index db completed_task_index value key) in
      let words = reworded m (λ e. "error while trying to create task index: <nil>") s' in
      let e =
        then-ok (connect db codec in_memory)
          (λ _. on_error m (λ e. raise "error while trying to create task index: <nil>")) s s'
          (connect-done d codec s o) in
      let done =
        words.1 tt (ap (λ (z : Outcome String (Unit {0}) × Clients db). z.0) (sym e) ∙ h) in
      let (pool, kept) =
        create_task_index-ok completed_task_index value key c o.writer o.writes done in
      let left : (build_completed_task_index db codec t s).1 ≡ (m s').1 =
        ap (λ (z : Outcome String (Unit {0}) × Clients db). z.1) e ∙ words.0 in
      rw left (
        record {
          pools = o.pools;
          reader = o.reader;
          writer = o.writer;
          held = ap some pool;
          reads = o.reads;
          writes = o.writes;
          leads = o.leads;
        },
        (json, j, rw kept at),
      )

  index_completed-Stands :
      (t : Task) (s : Clients db)
      → IsOpen d codec s
      → Stands d codec t s
      → (index_completed db codec t s).0 ≡ ok tt
      → IsOpen d codec (index_completed db codec t s).1
        × Stands d codec t (index_completed db codec t s).1
  index_completed-Stands t s o st h =
      by_test
        (((t.task_state == "Completed") || (t.task_state == "Exception")) && (t.parent_id == "")) h
    where
      end : Bool → Outcome String (Unit {0}) × Clients db
      end b = (if b then build_completed_task_index db codec t else pure tt) s

      by_test :
          (b : Bool) → (end b).0 ≡ ok tt → IsOpen d codec (end b).1 × Stands d codec t (end b).1
      by_test true k = build_index-Stands t s o st k
      by_test false k = (o, st)

  update_task_status-Stands :
      (t : Task) (s : Clients db)
      → IsOpen d codec s
      → (update_task_status db codec t in_memory s).0 ≡ ok tt
      → IsOpen d codec (update_task_status db codec t in_memory s).1
        × Stands d codec t (update_task_status db codec t in_memory s).1
  unfolding update_task_status
  update_task_status-Stands t s o h =
      let s' = save_pool db in_memory (client o.pools s) s in
      let c = client o.pools s in
      let m = update db codec.marshal "task" t.id t in
      let words =
        reworded (on_pool db in_memory m) (λ e. "error while trying to update task: " <> e.err_msg)
          s' in
      let told = because db codec "error while trying to update task: " (on_pool db in_memory m) in
      let (v, g, _) =
        bind-ok (connect db codec in_memory >> told) (λ _. index_completed db codec t) s h in
      let e = then-ok (connect db codec in_memory) (λ _. told) s s' (connect-done d codec s o) in
      let put = words.1 v (ap (λ (z : Outcome String String × Clients db). z.0) (sym e) ∙ g) in
      let left : ((connect db codec in_memory >> told) s).1 ≡ save_pool db in_memory (m c).1 s =
        ap (λ (z : Outcome String String × Clients db). z.1) e ∙ words.0 in
      let one = value-dropped m c put in
      let both =
        updated t s o _ (run-Refined codec.marshal d (updates "task" t.id t) c o.leads)
          (ap (λ (z : Outcome Error (Unit {0}) × Client db). z.0) one) in
      let after = save_pool db in_memory (m c).1 s in
      let (open_, stands) : IsOpen d codec after × Stands d codec t after =
        rw (ap (λ (z : Outcome Error (Unit {0}) × Client db). z.1) one) at both in
      let whole : update_task_status db codec t in_memory s ≡ index_completed db codec t after =
        then-ok (connect db codec in_memory >> told) (λ _. index_completed db codec t) s after
          (λ i. (g i, left i)) in
      rw (ap (λ (z : Outcome String (Unit {0}) × Clients db). z.1) whole) (
        index_completed-Stands t after open_ stands
          (ap (λ (z : Outcome String (Unit {0}) × Clients db). z.0) (sym whole) ∙ h))

  -- A task that PersistTask has stored is what GetTaskStatus then reads, if it reads one: while both
  -- pools of the in-memory database are open, and for a task that encoding/json can read back from
  -- what it wrote.
  pub persist_task-get_task_status :
      (t t' : Task) (s : Clients db) (flag : DbType)
      → IsOpen d codec s
      → ((text : String) → codec.marshal t ≡ ok text → codec.unmarshal text ≡ ok t)
      → (persist_task db codec t in_memory s).0 ≡ ok tt
      → (get_task_status db codec t.id flag (persist_task db codec t in_memory s).1).0 ≡ ok t'
      → t' ≡ t
  persist_task-get_task_status t t' s flag o law h g =
      let (open_, stands) = persist_task-Stands t s o h in
      get_task_status-Stands d codec t t' (persist_task db codec t in_memory s).1 flag open_ stands
        law g

  -- A task that UpdateTaskStatus has stored, whether or not it has entered the task into the index of
  -- completed tasks, is what GetTaskStatus then reads, if it reads one: while both pools of the in-memory
  -- database are open, and for a task that encoding/json can read back from what it wrote.
  pub update_task_status-get_task_status :
      (t t' : Task) (s : Clients db) (flag : DbType)
      → IsOpen d codec s
      → ((text : String) → codec.marshal t ≡ ok text → codec.unmarshal text ≡ ok t)
      → (update_task_status db codec t in_memory s).0 ≡ ok tt
      → (get_task_status db codec t.id flag (update_task_status db codec t in_memory s).1).0 ≡ ok t'
      → t' ≡ t
  update_task_status-get_task_status t t' s flag o law h g =
      let (open_, stands) = update_task_status-Stands t s o h in
      get_task_status-Stands d codec t t' (update_task_status db codec t in_memory s).1 flag open_
        stands law g
