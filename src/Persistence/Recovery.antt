-- ===== src/Persistence/Recovery.antt =====
-- The way back to a write pool in lib-persistence-manager/persistencemgr/redis.go, after a failed
-- write or the loss of a connection has left it nil.
use hwmgmt_device_mgr_device.Base.{
  String, ℕ, zero, suc, ◌≡◌, refl, ◌≢◌, ap, ◌∙◌, true, false, not, ◌&&◌, Option, none, some, arith,
  ◌==◌, eq_iff, ◌<◌,
}
use hwmgmt_device_mgr_device.Base.Exec.{Outcome, ok}
use hwmgmt_device_mgr_device.Errors.{Error}
use hwmgmt_device_mgr_device.Persistence.Redis.{Redis, Client, Pool, ConnPool, Config, DbType}
use hwmgmt_device_mgr_device.Persistence.Connections.{
  get_current_master_host_port, retry_rounds, retry_for_master_ip, set_write_pool,
  reset_db_write_connection, ensure_pool, reset_if_nil, Clients, the_pool, save_pool, config_of,
  get_db_connection,
}

module _ (db : Redis) (config : Config) where
  -- The world at the start of a round of the loop, when no round before has ended it.
  abbrev pub at_round : ℕ → db.World → db.World
  at_round zero w = w
  at_round (suc n) w = at_round n (db.sleep 1 (get_current_master_host_port db config w).1)

  -- What the sentinel answers in a round.
  abbrev pub answer : ℕ → db.World → String × String
  answer n w = (get_current_master_host_port db config (at_round n w)).0

  -- A master other than the one that was lost.
  abbrev pub IsNew : String → String × String → Type 0
  IsNew master a = (a.0 ≢ "") × (a.0 ≢ master)

  test-IsNew :
      (master : String) (a : String × String)
      → IsNew master a
      → (not (a.0 == "") && not (master == a.0)) ≡ true
  test-IsNew master a (h, k) = ground (arith, eq_iff a.0 "", eq_iff master a.0)

  test-not-IsNew :
      (master : String) (a : String × String)
      → ¬ IsNew master a
      → (not (a.0 == "") && not (master == a.0)) ≡ false
  test-not-IsNew master a h = ground (arith, eq_iff a.0 "", eq_iff master a.0)

  retry_rounds-new :
      (n k : ℕ) (master : String) (last : String × String) (w : db.World)
      → k < n
      → ((i : ℕ) → i < k → ¬ IsNew master (answer i w))
      → IsNew master (answer k w)
      → (retry_rounds db n master config last w).0 ≡ answer k w
  unfolding retry_rounds
  retry_rounds-new zero k master last w lt old new = absurd (omega arith)
  retry_rounds-new (suc n) zero master last w lt old new =
      rw (test-IsNew master (answer zero w) new, retry_rounds)
  retry_rounds-new (suc n) (suc k) master last w lt old new =
      rw (test-not-IsNew master (answer zero w) (old zero (omega arith)), retry_rounds)
        (retry_rounds-new n k master _ _ (omega arith) (λ i h. old (suc i) (omega arith)) new)

-- Pools that read where they did, and write to a master.
pub record WritesTo (q : Option Pool) (a : String × String) (p : ConnPool) : Type 0 where
  pub reads : p.read_pool ≡ q
  pub writes : p.write_pool ≡ some (record { host = a.0; port = a.1 })
  pub master : p.master_ip ≡ a.0

-- The sentinel names a new master first in one of the 120 rounds.
pub record Named (db : Redis) (config : Config) (master : String) (k : ℕ) (w : db.World)
    : Type 0 where
  pub in_time : k < 120
  pub before : (i : ℕ) → i < k → ¬ IsNew db config master (answer db config i w)
  pub new : IsNew db config master (answer db config k w)

module _ (db : Redis) where
  retry_for_master_ip-answer :
      (config : Config) (p : ConnPool) (w : db.World) (k : ℕ)
      → Named db config p.master_ip k w
      → (retry_for_master_ip db p config w).0 ≡ answer db config k w
  unfolding retry_for_master_ip
  retry_for_master_ip-answer config p w k n =
      retry_rounds-new db config 120 k p.master_ip ("", "") w n.in_time n.before n.new

  set_write_pool-WritesTo :
      (config : Config) (c : Client db) (k : ℕ)
      → Named db config c.pool.master_ip k c.world
      → WritesTo c.pool.read_pool (answer db config k c.world) (set_write_pool db config c).1.pool
  unfolding set_write_pool
  set_write_pool-WritesTo config c k n =
      let found = retry_for_master_ip-answer config c.pool c.world k n in
      let a = answer db config k c.world in
      let named : (a.0 == "") ≡ false = ground (arith, eq_iff a.0 "", n.new.0) in
      rw (found, set_write_pool) (rw named (record { reads = refl; writes = refl; master = refl }))

  reset-WritesTo :
      (E : Type 0) (flag : DbType) (c : Client db) (k : ℕ)
      → db.db_conf.redis_ha_enabled ≡ true
      → c.pool.write_pool ≡ none
      → Named db (config_of db.db_conf flag) c.pool.master_ip k c.world
      → WritesTo c.pool.read_pool
          (answer db (config_of db.db_conf flag) k c.world)
          (reset_if_nil db {E = E} flag c).1.pool
  unfolding reset_if_nil reset_db_write_connection
  reset-WritesTo E flag c k ha e n =
      ground (arith, set_write_pool-WritesTo (config_of db.db_conf flag) c k n)

  the_pool-save_pool :
      (flag : DbType) (c : Client db) (s : Clients db)
      → the_pool db flag (save_pool db flag c s) ≡ some c.pool
  the_pool-save_pool DbType.in_memory c s = refl
  the_pool-save_pool DbType.on_disk c s = refl

  ensure_pool-open :
      (flag : DbType) (o : Option ConnPool) (p : ConnPool) (q : Pool) (w : db.World)
      → o ≡ some p
      → p.read_pool ≡ some q
      → ensure_pool db flag o w ≡ (ok p, w)
  unfolding ensure_pool
  ensure_pool-open flag o p q w e r = ground arith

  get_db_connection-open :
      (flag : DbType) (s : Clients db) (p : ConnPool) (q : Pool)
      → the_pool db flag s ≡ some p
      → p.read_pool ≡ some q
      → (let c : Client db = record { pool = p; world = s.world } in
          let c' = (reset_if_nil db {E = Error} flag c).1 in
          get_db_connection db flag s ≡ (ok c'.pool, save_pool db flag c' s))
  unfolding get_db_connection
  get_db_connection-open flag s p q e r =
      ground (arith, ensure_pool-open flag (the_pool db flag s) p q s.world e r)

  -- Pools that are open are handed out as they are.
  pub get_db_connection-held :
      (flag : DbType) (s : Clients db) (p : ConnPool) (q v : Pool)
      → the_pool db flag s ≡ some p
      → p.read_pool ≡ some q
      → p.write_pool ≡ some v
      → get_db_connection db flag s
        ≡ (ok p, save_pool db flag (record { pool = p; world = s.world }) s)
  unfolding reset_if_nil
  get_db_connection-held flag s p q v e r n = get_db_connection-open flag s p q e r ∙ ground arith

  -- After the loss of the write pool, with high availability configured, the next GetDBConnection
  -- hands out pools that write to the first master other than the lost one that the sentinel names, if
  -- it names one in the 120 rounds, a second apart, in which it is asked. The read pool is the one it
  -- was, and the pools handed out are those that the service keeps.
  pub get_db_connection-WritesTo :
      (flag : DbType) (s : Clients db) (p : ConnPool) (q : Pool) (k : ℕ)
      → db.db_conf.redis_ha_enabled ≡ true
      → the_pool db flag s ≡ some p
      → p.read_pool ≡ some q
      → p.write_pool ≡ none
      → Named db (config_of db.db_conf flag) p.master_ip k s.world
      → (p' : ConnPool) × ((get_db_connection db flag s).0 ≡ ok p')
        × (the_pool db flag (get_db_connection db flag s).1 ≡ some p')
        × WritesTo (some q) (answer db (config_of db.db_conf flag) k s.world) p'
  unfolding get_db_connection
  get_db_connection-WritesTo flag s p q k ha e r l n =
      let c : Client db = record { pool = p; world = s.world } in
      let c' = (reset_if_nil db {E = Error} flag c).1 in
      let opened = get_db_connection-open flag s p q e r in
      (
        c'.pool,
        ap (λ (z : Outcome Error ConnPool × Clients db). z.0) opened,
        ap (λ (z : Outcome Error ConnPool × Clients db). the_pool db flag z.1) opened
            ∙ the_pool-save_pool flag c' s,
        rw (← r) (reset-WritesTo Error flag c k ha l n),
      )
