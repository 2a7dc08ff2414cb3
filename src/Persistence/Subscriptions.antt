-- ===== src/Persistence/Subscriptions.antt =====
-- The indexes of event subscriptions and of devices' subscriptions in
-- lib-persistence-manager/persistencemgr/redis.go. The number that bounds the pages of a scan comes
-- first.
use hwmgmt_device_mgr_device.Base.{
  String, ℕ, zero, suc, pos, true, false, some, none, List, [], ◌∷◌, is_empty, ◌==◌, if◌then◌else◌,
}
use hwmgmt_device_mgr_device.Base.Text.{◌<>◌, replace, join_spaces}
use hwmgmt_device_mgr_device.Base.Exec.{
  ok, err, panic, Exec, pure, raise, lift, on_error, ◌>>=◌, ◌>>◌,
}
use hwmgmt_device_mgr_device.Persistence.Redis.{Redis, Client, Pool, int}
use hwmgmt_device_mgr_device.Persistence.Access.{
  is_db_connect_error, call, read_conn, write_conn, drop_write_pool,
}
use hwmgmt_device_mgr_device.Persistence.Indexes.{
  Cursor, non_zero, data_error, float_cursor, scan_from,
}
use hwmgmt_device_mgr_device.Persistence.Updates.{bracket}

-- The square brackets of a text, escaped for MATCH.
unfoldable pub escape : String → String
unfolding replace
escape key = replace b']' "\\]" (replace b'[' "\\[" key)

-- `hostIP::location::[origins]`
abbrev pub device_key : String → String → List String → String
device_key host_ip location origins =
    host_ip <> "::" <> location <> "::" <> bracket (join_spaces origins)

abbrev no_data : String → String
no_data key = "No data found for the key: " <> key

abbrev no_pool : String
no_pool = "WritePool is nil"

abbrev already_there : String → String
already_there index = "Data Already Exist for the index: " <> index

module _ (db : Redis) where
  -- `const cursor float64 = 0`, which is printed as the integer is.
  abbrev pub start : Cursor db
  start = int (pos 0)

  unfoldable pub get_evt_subscriptions : ℕ → String → String → Exec (Client db) String (List String)
  unfolding scan_from
  get_evt_subscriptions fuel index search_key = do
    conn ← read_conn db
    scan_from db conn index search_key (float_cursor db) (λ xs. pure (non_zero xs)) fuel start

  -- An entry is added when the look-up, whose error is dropped, finds none.
  abbrev pub must_be_new :
      Exec (Client db) String (List String) → String → Exec (Client db) String (Unit {0})
  must_be_new look_up index = do
    found ← on_error look_up (λ e. pure [])
    if is_empty found then pure tt else raise (already_there index)

  unfoldable pub create_evt_subscription_index :
      ℕ → String → String → Exec (Client db) String (Unit {0})
  unfolding get_evt_subscriptions escape
  create_evt_subscription_index fuel index key = do
    conn ← write_conn db no_pool
    must_be_new (get_evt_subscriptions fuel index (escape key)) index
    on_error (call db (db.zadd conn index (int (pos 0)) key)) (λ e. drop_write_pool db >> raise e)

  -- The loops that remove entries: only an error of the connection ends them.
  unfoldable pub remove_all : Pool → String → List String → Exec (Client db) String (Unit {0})
  remove_all conn index [] = pure tt
  remove_all conn index (x ∷ xs) = do
    on_error (call db (db.send_zrem conn index x))
        (λ e. if is_db_connect_error e then (drop_write_pool db >> raise e) else pure tt)
    remove_all conn index xs

  unfoldable pub delete_evt_subscriptions : ℕ → String → String → Exec (Client db) String (Unit {0})
  unfolding get_evt_subscriptions remove_all
  delete_evt_subscriptions fuel index remove_key = do
    conn ← write_conn db no_pool
    found ← get_evt_subscriptions fuel index remove_key
    (if is_empty found then raise (no_data remove_key) else pure tt)
    remove_all conn index found

  unfoldable pub update_evt_subscriptions :
      ℕ → String → String → String → Exec (Client db) String (Unit {0})
  unfolding delete_evt_subscriptions create_evt_subscription_index
  update_evt_subscriptions fuel index subscription_id key = do
    delete_evt_subscriptions fuel index subscription_id
    on_error (create_evt_subscription_index fuel index key)
        (λ e. raise "Error while updating subscriptions")

  -- The loop of GetDeviceSubscription, which ends at the first page that has entries at all.
  unfoldable pub first_page :
      Pool → String → String → ℕ → Cursor db → Exec (Client db) String (List String)
  first_page conn index match_ zero cursor = lift (panic "no more pages")
  first_page conn index match_ (suc n) cursor = do
    page ← on_error (call db (db.zscan conn index cursor match_)) (λ e. raise (data_error e))
    elim page.entries [
      | some (ok xs) ↦ if is_empty xs then raise (no_data match_) else pure xs
      | some (err e) ↦ raise e
      | some (panic m) ↦ lift (panic m)
      | none ↦ elim (page.cursor == "0") [
        | true ↦ pure []
        | false ↦ do
          cursor' ← lift (float_cursor db page.cursor)
          first_page conn index match_ n cursor'
      ]
    ]

  unfoldable pub get_device_subscription :
      ℕ → String → String → Exec (Client db) String (List String)
  unfolding first_page
  get_device_subscription fuel index match_ = do
    conn ← read_conn db
    first_page conn index match_ fuel start

  -- A failed addition leaves the write pool as it is.
  unfoldable pub create_device_subscription_index :
      ℕ → String → String → String → List String → Exec (Client db) String (Unit {0})
  unfolding get_device_subscription escape
  create_device_subscription_index fuel index host_ip location origins = do
    conn ← write_conn db no_pool
    must_be_new (get_device_subscription fuel index (escape (device_key host_ip location origins)))
        index
    call db (db.zadd conn index (int (pos 0)) (device_key host_ip location origins))

  unfoldable pub delete_device_subscription :
      ℕ → String → String → Exec (Client db) String (Unit {0})
  unfolding get_device_subscription remove_all
  delete_device_subscription fuel index host_ip = do
    conn ← write_conn db no_pool
    found ← get_device_subscription fuel index (host_ip <> "*")
    (if is_empty found then raise (no_data host_ip) else pure tt)
    remove_all conn index found

  unfoldable pub update_device_subscription :
      ℕ → String → String → String → List String → Exec (Client db) String (Unit {0})
  unfolding get_device_subscription delete_device_subscription create_device_subscription_index
  update_device_subscription fuel index host_ip location origins = do
    get_device_subscription fuel index (host_ip <> "[^0-9]*")
    delete_device_subscription fuel index (host_ip <> "[^0-9]")
    on_error (create_device_subscription_index fuel index host_ip location origins)
        (λ e. raise "Error while updating subscriptions")
