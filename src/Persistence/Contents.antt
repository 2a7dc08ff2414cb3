-- ===== src/Persistence/Contents.antt =====
-- What the persistence manager relies on in a Redis database, and rules for the parts that its
-- methods are made of.
use hwmgmt_device_mgr_device.Base.{String, ◌≡◌, refl, ◌⊎◌, Option, none, some, ◌==◌, if◌then◌else◌}
use hwmgmt_device_mgr_device.Base.Exec.{Outcome, ok, err, panic, Exec, ◌>>=◌}
use hwmgmt_device_mgr_device.Persistence.Redis.{Redis, Client, Pool, ConnPool, null, bulk, Number}
use hwmgmt_device_mgr_device.Persistence.Access.{get_conn, read_conn, conn_or, write_conn}

-- The texts that a database keeps under its keys.
abbrev pub Keys : Type 0
Keys = String → Option String

abbrev pub put_key : String → String → Keys → Keys
put_key k v m x = if k == x then some v else m x

abbrev pub drop_key : String → Keys → Keys
drop_key k m x = if k == x then none else m x

-- One database, and the pools that lead to it: GET shows the text under a key and changes nothing,
-- SET and DEL that report success have been done, and a SET or DEL that fails may have been done.
pub record Database (db : Redis) : Type 1 where
  pub contents : db.World → Keys
  pub Leads : Pool → Type 0
  pub get-contents : (p : Pool) (k : String) (w : db.World) → contents (db.get p k w).1 ≡ contents w
  pub get-null :
      (p : Pool) (k : String) (w : db.World)
      → Leads p
      → (db.get p k w).0 ≡ ok null
      → contents w k ≡ none
  pub get-nil :
      (p : Pool) (k : String) (w : db.World)
      → Leads p
      → (db.get p k w).0 ≡ err "redigo: nil returned"
      → contents w k ≡ none
  pub get-bulk :
      (p : Pool) (k : String) (w : db.World) {v : String}
      → Leads p
      → (db.get p k w).0 ≡ ok (bulk v)
      → contents w k ≡ some v
  pub set-ok :
      (p : Pool) (k v : String) (w : db.World)
      → Leads p
      → (db.set p k v w).0 ≡ ok tt
      → contents (db.set p k v w).1 ≡ put_key k v (contents w)
  pub set-any :
      (p : Pool) (k v : String) (w : db.World)
      → Leads p
      → (contents (db.set p k v w).1 ≡ contents w)
        ⊎ (contents (db.set p k v w).1 ≡ put_key k v (contents w))
  pub del-ok :
      (p : Pool) (k : String) (w : db.World)
      → Leads p
      → (db.del p k w).0 ≡ ok tt
      → contents (db.del p k w).1 ≡ drop_key k (contents w)
  pub del-any :
      (p : Pool) (k : String) (w : db.World)
      → Leads p
      → (contents (db.del p k w).1 ≡ contents w)
        ⊎ (contents (db.del p k w).1 ≡ drop_key k (contents w))
  -- ZADD works on a sorted set, and on no text.
  pub zadd-contents :
      (p : Pool) (index : String) (score : Number db.floats.Float) (member : String) (w : db.World)
      → contents (db.zadd p index score member w).1 ≡ contents w

-- The pools of a connection lead to the database.
pub record IsFor {db : Redis} (d : Database db) (p : ConnPool) : Type 0 where
  pub reads : (q : Pool) → p.read_pool ≡ some q → d.Leads q
  pub writes : (q : Pool) → p.write_pool ≡ some q → d.Leads q

-- The pools after a method: as they were, or without the write pool.
abbrev pub KeptOrDropped : ConnPool → ConnPool → Type 0
KeptOrDropped p p' = (p' ≡ p) ⊎ (p' ≡ record p { write_pool = none })

module _ {db : Redis} {E A : Type 0} where
  -- A method that starts with the read pool.
  pub read_conn-elim :
      (f : Pool → Exec (Client db) E A) (c : Client db) (G : Outcome E A × Client db → Type 0)
      → ((p : Pool) → c.pool.read_pool ≡ some p → G (f p c))
      → ((m : String) → G (panic m, c))
      → G ((read_conn db >>= f) c)
  read_conn-elim f c G go crash = from_pool c.pool.read_pool go
    where
      from_pool :
          (o : Option Pool) → ((p : Pool) → o ≡ some p → G (f p c)) → G ((get_conn db o >>= f) c)
      from_pool none k = crash _
      from_pool (some p) k = k p refl

  -- A method that goes on with the write pool.
  pub write_conn-elim :
      (x : E) (f : Pool → Exec (Client db) E A) (c : Client db)
      (G : Outcome E A × Client db → Type 0)
      → ((p : Pool) → c.pool.write_pool ≡ some p → G (f p c))
      → G (err x, c)
      → G ((write_conn db x >>= f) c)
  write_conn-elim x f c G go stop = from_pool c.pool.write_pool go
    where
      from_pool :
          (o : Option Pool) → ((p : Pool) → o ≡ some p → G (f p c)) → G ((conn_or db x o >>= f) c)
      from_pool none k = stop
      from_pool (some p) k = k p refl
