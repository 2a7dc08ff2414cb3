-- ===== src/Persistence/Connections.antt =====
-- The pools of lib-persistence-manager/persistencemgr/redis.go: how they are opened, found through
-- the sentinels, set again after a failed write, and handed out by GetDBConnection of this file and
-- of lib-utilities/common/dbconn.go. The fields of the clients for idle and active connections are
-- theirs alone.
use hwmgmt_device_mgr_device.Base.{
  String, ℕ, zero, suc, true, false, not, ◌&&◌, Option, none, some, List, [], ◌∷◌, ◌==◌,
  if◌then◌else◌,
}
use hwmgmt_device_mgr_device.Base.Text.{◌<>◌}
use hwmgmt_device_mgr_device.Base.Exec.{
  Outcome, ok, err, panic, Exec, pure, raise, lift, on_error, ◌>>=◌,
}
use hwmgmt_device_mgr_device.Errors.{ErrType, Error, pack_error}
use hwmgmt_device_mgr_device.Persistence.Redis.{
  Redis, Client, Pool, ConnPool, Config, DbConf, DbType, in_memory, on_disk,
}
use hwmgmt_device_mgr_device.Persistence.Access.{connect_or}

abbrev pub get_in_memory_db_config : DbConf → Config
get_in_memory_db_config conf = record {
  port = conf.in_memory_port;
  protocol = conf.protocol;
  host = conf.in_memory_host;
  sentinel_port = conf.in_memory_sentinel_port;
  master_set = conf.in_memory_primary_set;
}

abbrev pub get_on_disk_db_config : DbConf → Config
get_on_disk_db_config conf = record {
  port = conf.on_disk_port;
  protocol = conf.protocol;
  host = conf.on_disk_host;
  sentinel_port = conf.on_disk_sentinel_port;
  master_set = conf.on_disk_primary_set;
}

abbrev pub config_of : DbConf → DbType → Config
config_of conf in_memory = get_in_memory_db_config conf
config_of conf on_disk = get_on_disk_db_config conf

-- `getPool` makes a pool and no connection, so it reports no error.
abbrev pub get_pool : String → String → Outcome String Pool
get_pool host port = ok (record { host = host; port = port })

-- An answer of the sentinel that is no pair counts for nothing.
abbrev pub host_port : List String → String × String
host_port (ip ∷ port ∷ []) = (ip, port)
host_port _ = ("", "")

abbrev pub pool_error : String → Error
pool_error e = connect_or e (pack_error ErrType.undefined_error_type e)

abbrev pub no_pools : ConnPool
no_pools = record { read_pool = none; write_pool = none; master_ip = ""; pool_updated_time = 0 }

module _ (db : Redis) where
  abbrev pub get_current_master_host_port : Config → db.World → (String × String) × db.World
  get_current_master_host_port config w =
      let (answer, w') =
        db.master_addr_by_name (config.host <> ":" <> config.sentinel_port) config.master_set w in
      (host_port answer, w')

  -- The rounds of `retryForMasterIP` that are left, with the last answer.
  unfoldable pub retry_rounds :
      ℕ → String → Config → String × String → db.World → (String × String) × db.World
  retry_rounds zero master config last w = (last, w)
  retry_rounds (suc n) master config last w =
      let (found, w') = get_current_master_host_port config w in
      elim (not (found.0 == "") && not (master == found.0)) [
        | true ↦ (found, w')
        | false ↦ retry_rounds n master config found (db.sleep 1 w')
      ]

  unfoldable pub retry_for_master_ip : ConnPool → Config → db.World → (String × String) × db.World
  unfolding retry_rounds
  retry_for_master_ip p config w = retry_rounds 120 p.master_ip config ("", "") w

  -- The new write pool, at the master that the sentinel names.
  unfoldable pub set_write_pool : Config → Exec (Client db) String (Unit {0})
  set_write_pool config c =
      let (master, w) = retry_for_master_ip c.pool config c.world in
      if master.0 == ""
      then raise "unable to retrieve master ip from sentinel master election"
          (record c { world = w })
      else (let (time, w') = db.now w in
          (
            ok tt,
            record {
              pool = record c.pool {
                write_pool = some (record { host = master.0; port = master.1 });
                master_ip = master.0;
                pool_updated_time = time;
              };
              world = w';
            },
          ))

  -- A failed reset is logged, and leaves the write pool nil.
  unfoldable pub reset_db_write_connection : {E : Type 0} → DbType → Exec (Client db) E (Unit {0})
  reset_db_write_connection flag c =
      if db.db_conf.redis_ha_enabled
      then elim c.pool.write_pool [
        | some _ ↦ pure tt c
        | none ↦ on_error (set_write_pool (config_of db.db_conf flag)) (λ e. pure tt) c
      ]
      else pure tt c

  -- Where writes go: the master that the sentinel names, or the configured host.
  abbrev pub master_of : Config → db.World → (String × String) × db.World
  master_of config w =
      if db.db_conf.redis_ha_enabled
      then get_current_master_host_port config w
      else ((config.host, config.port), w)

  -- The method `Connection` of a configuration.
  unfoldable pub connection : Config → Exec db.World Error ConnPool
  connection config w =
      let (master, w') = master_of config w in
      (do
        reader ← on_error (lift (get_pool config.host config.port)) (λ e. raise (pool_error e))
        writer ← on_error (lift (get_pool master.0 master.1)) (λ e. raise (pool_error e))
        pure (record {
          read_pool = some reader;
          write_pool = some writer;
          master_ip = master.0;
          pool_updated_time = 0;
        }))
        w'

  -- The pools of GetDBConnection: opened when there are none, or none to read from. Pools that
  -- could not be opened are nil when their time is set.
  unfoldable pub open_pool : DbType → Exec db.World Error ConnPool
  unfolding connection
  open_pool flag w =
      let (r, w') = connection (config_of db.db_conf flag) w in
      elim r [
        | ok p ↦ (let (time, w'') = db.now w' in (ok (record p { pool_updated_time = time }), w''))
        | err e ↦ (panic "invalid memory address or nil pointer dereference", w')
        | panic m ↦ (panic m, w')
      ]

  unfoldable pub ensure_pool : DbType → Option ConnPool → Exec db.World Error ConnPool
  unfolding open_pool
  ensure_pool flag none = open_pool flag
  ensure_pool flag (some p) = elim p.read_pool [ none ↦ open_pool flag | some _ ↦ pure p ]

-- The variables `inMemDBConnPool` and `onDiskDBConnPool`, and the world.
pub record Clients (db : Redis) : Type 0 where
  pub in_mem_db_conn_pool : Option ConnPool
  pub on_disk_db_conn_pool : Option ConnPool
  pub world : db.World

module _ (db : Redis) where
  abbrev pub the_pool : DbType → Clients db → Option ConnPool
  the_pool in_memory s = s.in_mem_db_conn_pool
  the_pool on_disk s = s.on_disk_db_conn_pool

  -- What a method did to the pool behind the pointer.
  abbrev pub save_pool : DbType → Client db → Clients db → Clients db
  save_pool in_memory c s = record s { in_mem_db_conn_pool = some c.pool; world = c.world }
  save_pool on_disk c s = record s { on_disk_db_conn_pool = some c.pool; world = c.world }

  unfoldable pub reset_if_nil : {E : Type 0} → DbType → Exec (Client db) E (Unit {0})
  unfolding reset_db_write_connection
  reset_if_nil flag c = elim c.pool.write_pool [
    | none ↦ reset_db_write_connection db flag c
    | some _ ↦ pure tt c
  ]

  -- `GetDBConnection`: the state is left with the pool that is returned.
  unfoldable pub get_db_connection : DbType → Exec (Clients db) Error ConnPool
  get_db_connection flag s =
      let (r, w) = ensure_pool db flag (the_pool flag s) s.world in
      elim r [
        | ok p ↦
            (let (_, c) = reset_if_nil {E = Error} flag (record { pool = p; world = w }) in
              (ok c.pool, save_pool flag c s))
        | err e ↦ (err e, record s { world = w })
        | panic m ↦ (panic m, record s { world = w })
      ]

  -- A method called on the pool that GetDBConnection handed out, which the variable still names.
  abbrev pub on_pool : {E A : Type 0} → DbType → Exec (Client db) E A → Exec (Clients db) E A
  on_pool flag m s = elim (the_pool flag s) [
    | some p ↦ (let (r, c) = m (record { pool = p; world = s.world }) in (r, save_pool flag c s))
    | none ↦ (panic "invalid memory address or nil pointer dereference", s)
  ]
