-- ===== src/Persistence/Redis.antt =====
-- The types of lib-persistence-manager/persistencemgr (config.go, and the pools of redis.go), the
-- part of the configuration that it reads, and the calls of the Redis clients that it makes, over a
-- world that holds the servers, the network and the clock.
use hwmgmt_device_mgr_device.Base.{String, ℕ, ℤ, Bool, Option, List}
use hwmgmt_device_mgr_device.Base.Exec.{Outcome, Exec}

-- `DbType`
pub data DbType : Type 0 where
  in_memory : DbType
  on_disk : DbType

-- `redis.Pool`: where its connections lead.
pub record Pool : Type 0 where
  pub host : String
  pub port : String

pub record Config : Type 0 where
  pub port : String
  pub protocol : String
  pub host : String
  pub sentinel_port : String
  pub master_set : String

-- A pool that is nil is `none`.
pub record ConnPool : Type 0 where
  pub read_pool : Option Pool
  pub write_pool : Option Pool
  pub master_ip : String
  pub pool_updated_time : ℕ

-- `config.Data.DBConf`
pub record DbConf : Type 0 where
  pub protocol : String
  pub redis_ha_enabled : Bool
  pub in_memory_port : String
  pub in_memory_host : String
  pub in_memory_sentinel_port : String
  pub in_memory_primary_set : String
  pub on_disk_port : String
  pub on_disk_host : String
  pub on_disk_sentinel_port : String
  pub on_disk_primary_set : String

-- The reply of GET: nothing, a text, or what `redis.String` refuses with an error.
pub data Reply : Type 0 where
  null : Reply
  bulk : String → Reply
  other : String → Reply

-- The reply of ZSCAN: the next cursor, and the page of members and scores, which the reply may lack
-- and `redis.Strings` may refuse.
pub record Page : Type 0 where
  pub cursor : String
  pub entries : Option (Outcome String (List String))

-- Go floats, which the code only prints, reads and compares.
pub record Floats : Type 1 where
  pub Float : Type 0
  -- `strconv.ParseFloat(s, 64)`
  pub parse_float : String → Outcome String Float
  -- `strconv.FormatFloat(v, 'f', -1, 64)`
  pub format_float : Float → String
  -- `<`, `<=`, and the comparison of big floats with 0.
  pub lt : Float → Float → Bool
  pub le : Float → Float → Bool
  pub big_eq : Float → Float → Bool

-- A cursor or a score that is sent: an integer or a float.
pub data Number (F : Type 0) : Type 0 where
  int : ℤ → Number F
  float : F → Number F

pub record Redis : Type 1 where
  pub floats : Floats
  pub db_conf : DbConf
  pub World : Type 0
  -- `conn.Do` on a connection of the pool. A call of `zadd` stands for `Send`, too.
  pub get : Pool → String → Exec World String Reply
  pub set : Pool → String → String → Exec World String (Unit {0})
  pub del : Pool → String → Exec World String (Unit {0})
  pub keys : Pool → String → Exec World String (List String)
  pub flush_all : Pool → Exec World String (Unit {0})
  pub ping : Pool → Exec World String (Unit {0})
  -- WATCH, MULTI and EXEC on the connection that a transaction has of its own.
  pub watch : Pool → String → Exec World String (Unit {0})
  pub multi : Pool → World → World
  pub exec : Pool → Exec World String (Unit {0})
  pub zscan : Pool → String → Number floats.Float → String → Exec World String Page
  pub zadd : Pool → String → Number floats.Float → String → Exec World String (Unit {0})
  pub zrem : Pool → String → String → Exec World String (Unit {0})
  pub send_zrem : Pool → String → String → Exec World String (Unit {0})
  pub zrange : Pool → String → ℤ → ℤ → Exec World String (List String)
  pub zrange_by_score : Pool → String → ℤ → ℤ → Exec World String (List String)
  -- `newSentinelClient` and `getMasterAddrByName` at an address and a master set.
  pub master_addr_by_name : String → String → World → List String × World
  pub now : World → ℕ × World
  -- `time.Sleep` of so many seconds.
  pub sleep : ℕ → World → World
  -- `strings.ToLower`
  pub to_lower : String → String
  -- `strconv.Atoi`
  pub atoi : String → Outcome String ℤ

-- The state that a method of a pool works on: the pool behind its pointer, and the world.
pub record Client (db : Redis) : Type 0 where
  pub pool : ConnPool
  pub world : db.World
