-- ===== src/Persistence/Updates.antt =====
-- What lib-persistence-manager/persistencemgr/redis.go writes to secondary indexes: CreateIndex,
-- UpdateResourceIndex and CreateTaskIndex. A form is the list of its entries, in the order in which
-- the loop over the map meets them.
use hwmgmt_device_mgr_device.Base.{String, ℕ, ℤ, pos, List, [], ◌∷◌, map, ◌==◌, if◌then◌else◌}
use hwmgmt_device_mgr_device.Base.Text.{◌<>◌, show, join_spaces}
use hwmgmt_device_mgr_device.Base.Exec.{
  Outcome, ok, err, Exec, pure, raise, lift, on_error, ◌>>=◌, ◌>>◌,
}
use hwmgmt_device_mgr_device.Persistence.Redis.{Redis, Client, Pool, Number, int, float}
use hwmgmt_device_mgr_device.Persistence.Access.{call, write_conn, drop_write_pool}
use hwmgmt_device_mgr_device.Persistence.Indexes.{del}

-- The types of a form's values that the `switch` tells apart; any other is its printed form.
pub data IndexValue (F : Type 0) : Type 0 where
  an_int : ℤ → IndexValue F
  a_float : F → IndexValue F
  a_string : String → IndexValue F
  strings : List String → IndexValue F
  floats : List F → IndexValue F
  unsupported : String → IndexValue F

abbrev pub bracket : String → String
bracket s = "[" <> s <> "]"

module _ (db : Redis) where
  abbrev pub Score : Type 0
  Score = Number db.floats.Float

  abbrev zero_score : Score
  zero_score = int (pos 0)

  -- The score and the member of a value.
  unfoldable pub index_entry : String → IndexValue db.floats.Float → Outcome String (Score × String)
  unfolding show
  index_entry uuid (an_int n) = ok (int n, show n <> "::" <> uuid)
  index_entry uuid (a_float v) = ok (float v, db.floats.format_float v <> "::" <> uuid)
  index_entry uuid (a_string s) = ok (zero_score, db.to_lower s <> "::" <> uuid)
  index_entry uuid (strings xs) =
      ok (zero_score, db.to_lower (bracket (join_spaces xs)) <> "::" <> uuid)
  index_entry uuid (floats vs) =
      ok (zero_score, bracket (join_spaces (map db.floats.format_float vs)) <> "::" <> uuid)
  index_entry uuid (unsupported v) = err ("error while saving index, unsupported value type " <> v)

  abbrev pub Form : Type 0
  Form = List (String × IndexValue db.floats.Float)

  -- ZADD on a connection; the write pool becomes nil when that fails.
  abbrev pub add_member : Pool → String → Score → String → Exec (Client db) String (Unit {0})
  add_member conn index score member =
      on_error (call db (db.zadd conn index score member)) (λ e. drop_write_pool db >> raise e)

  -- The loop of CreateIndex, on the connection taken before it.
  unfoldable pub add_entries : Pool → Form → String → Exec (Client db) String (Unit {0})
  unfolding index_entry
  add_entries conn [] uuid = pure tt
  add_entries conn ((index, value) ∷ form) uuid = do
    entry ← lift (index_entry uuid value)
    add_member conn index entry.0 entry.1
    add_entries conn form uuid

  unfoldable pub create_index : Form → String → Exec (Client db) String (Unit {0})
  unfolding add_entries
  create_index form uuid = do
    conn ← write_conn db "error while Creating index: WritePool is nil "
    add_entries conn form uuid

  -- Removal of the entries of a form; what is not there need not be removed.
  unfoldable pub del_entries : ℕ → Form → String → Exec (Client db) String (Unit {0})
  unfolding del
  del_entries fuel [] uuid = pure tt
  del_entries fuel ((index, value) ∷ form) uuid = do
    on_error (del db fuel index uuid) (λ e.
        if e == "no data with ID found"
        then pure tt
        else raise ("Error while updating index: " <> e))
    del_entries fuel form uuid

  unfoldable pub update_resource_index : ℕ → Form → String → Exec (Client db) String (Unit {0})
  unfolding del_entries create_index
  update_resource_index fuel form uuid = do
    del_entries fuel form uuid
    on_error (create_index form uuid) (λ e. raise ("Error while updating index: " <> e))

  unfoldable pub create_task_index : String → ℤ → String → Exec (Client db) String (Unit {0})
  create_task_index index value key = do
    conn ← write_conn db "error while creating task index: WritePool is nil "
    add_member conn index (int value) key
