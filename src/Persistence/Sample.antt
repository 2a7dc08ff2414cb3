-- ===== src/Persistence/Sample.antt =====
-- A database that is one map, behind a server whose replies are lost by readers at the host "slow".
use hwmgmt_device_mgr_device.Base.{
  String, ℕ, pos, ◌≡◌, refl, inr, Bool, true, false, Option, none, some, [], ◌∷◌, arith, ltb, leb,
  eq_ℕ, ◌==◌, if◌then◌else◌, ◌≢◌, eq_iff,
}
use hwmgmt_device_mgr_device.Base.Exec.{Outcome, ok, err}
use hwmgmt_device_mgr_device.Base.Text.{show}
use hwmgmt_device_mgr_device.Persistence.Redis.{
  Redis, Floats, DbConf, Reply, null, bulk, Pool, ConnPool, Client,
}
use hwmgmt_device_mgr_device.Persistence.Connections.{Clients}
use hwmgmt_device_mgr_device.Persistence.Contents.{Keys, Database, IsFor, put_key, drop_key}

abbrev pub whole_numbers : Floats
whole_numbers = record {
  Float = ℕ;
  parse_float = λ s. err "invalid syntax";
  format_float = λ n. show (pos n);
  lt = ltb;
  le = leb;
  big_eq = eq_ℕ;
}

abbrev pub sample_conf : DbConf
sample_conf = record {
  protocol = "tcp";
  redis_ha_enabled = true;
  in_memory_port = "6379";
  in_memory_host = "10.0.0.9";
  in_memory_sentinel_port = "26379";
  in_memory_primary_set = "primaryset";
  on_disk_port = "6380";
  on_disk_host = "10.0.0.8";
  on_disk_sentinel_port = "26380";
  on_disk_primary_set = "primaryset";
}

abbrev pub reply_of : Option String → Reply
reply_of none = null
reply_of (some v) = bulk v

abbrev pub sample_get : Pool → String → Keys → Outcome String Reply × Keys
sample_get p k w = (if p.host == "slow" then err "i/o timeout" else ok (reply_of (w k)), w)

-- The sentinel always names the host 10.0.0.2.
abbrev pub sample_redis : Redis
sample_redis = record {
  floats = whole_numbers;
  db_conf = sample_conf;
  World = Keys;
  get = sample_get;
  set = λ p k v w. (ok tt, put_key k v w);
  del = λ p k w. (ok tt, drop_key k w);
  keys = λ p k w. (ok [], w);
  flush_all = λ p w. (ok tt, λ k. none);
  ping = λ p w. (ok tt, w);
  watch = λ p k w. (ok tt, w);
  multi = λ p w. w;
  exec = λ p w. (ok tt, w);
  zscan = λ p index cursor pattern w. (ok (record { cursor = "0"; entries = some (ok []) }), w);
  zadd = λ p index score member w. (ok tt, w);
  zrem = λ p index member w. (ok tt, w);
  send_zrem = λ p index member w. (ok tt, w);
  zrange = λ p index min max w. (ok [], w);
  zrange_by_score = λ p index min max w. (ok [], w);
  master_addr_by_name = λ address set w. ("10.0.0.2" ∷ "6379" ∷ [], w);
  now = λ w. (7, w);
  sleep = λ n w. w;
  to_lower = λ s. s;
  atoi = λ s. err "invalid syntax";
}

pub different : (a b : String) → (a == b) ≡ false → a ≢ b
different a b h = ground (arith, eq_iff a b)

pub sample_get-null :
    (p : Pool) (k : String) (w : Keys) → (sample_get p k w).0 ≡ ok null → w k ≡ none
sample_get-null p k w h = ground arith

pub sample_get-nil :
    (p : Pool) (k : String) (w : Keys)
    → (sample_get p k w).0 ≡ err "redigo: nil returned"
    → w k ≡ none
sample_get-nil p k w h = by_test (p.host == "slow") h
  where
    by_test :
        (b : Bool)
        → (let r : Outcome String Reply = if b then err "i/o timeout" else ok (reply_of (w k)) in r)
          ≡ err "redigo: nil returned"
        → w k ≡ none
    by_test true e = absurd (different "i/o timeout" "redigo: nil returned" refl (ground arith))
    by_test false e = cc

pub sample_get-bulk :
    (p : Pool) (k : String) (w : Keys) {v : String}
    → (sample_get p k w).0 ≡ ok (bulk v)
    → w k ≡ some v
sample_get-bulk p k w h = ground arith

abbrev pub sample_database : Database sample_redis
sample_database = record {
  contents = λ w. w;
  Leads = λ p. Unit;
  get-contents = λ p k w. refl;
  get-null = λ p k w l h. sample_get-null p k w h;
  get-nil = λ p k w l h. sample_get-nil p k w h;
  get-bulk = λ p k w l h. sample_get-bulk p k w h;
  set-ok = λ p k v w l h. refl;
  set-any = λ p k v w l. inr refl;
  del-ok = λ p k w l h. refl;
  del-any = λ p k w l. inr refl;
  zadd-contents = λ p index score member w. refl;
}

abbrev pub pool_at : String → Pool
pool_at host = record { host = host; port = "6379" }

abbrev pub pools : String → Option Pool → ConnPool
pools host writer = record {
  read_pool = some (pool_at host);
  write_pool = writer;
  master_ip = "10.0.0.1";
  pool_updated_time = 1;
}

pub pools-IsFor : (host : String) (writer : Option Pool) → IsFor sample_database (pools host writer)
pools-IsFor host writer = record { reads = λ q e. tt; writes = λ q e. tt }

-- One record, in the table "task" under the key "t1".
abbrev pub one_record : Keys
one_record = put_key "task:t1" "old" (λ k. none)

abbrev pub client_of : String → Option Pool → Client sample_redis
client_of host writer = record { pool = pools host writer; world = one_record }

abbrev pub clients_of : Option Pool → Keys → Clients sample_redis
clients_of writer w = record {
  in_mem_db_conn_pool = some (pools "10.0.0.9" writer);
  on_disk_db_conn_pool = none;
  world = w;
}
