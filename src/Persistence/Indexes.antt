-- ===== src/Persistence/Indexes.antt =====
-- Secondary indexes of lib-persistence-manager/persistencemgr/redis.go: reading the members of a
-- sorted set page by page (GetString, GetStorageList), by range (GetRange, GetTaskList), and
-- removing them (Del). An error is the text of a Go error.
use hwmgmt_device_mgr_device.Base.{
  String, ℕ, zero, suc, ℤ, pos, Bool, true, false, none, some, List, [], ◌∷◌, ◌++◌, get_elem?,
  contains, is_empty, ◌==◌, if◌then◌else◌,
}
use hwmgmt_device_mgr_device.Base.Text.{◌<>◌, split, split_colons, replace}
use hwmgmt_device_mgr_device.Base.Exec.{
  Outcome, ok, err, panic, Exec, pure, raise, lift, on_error, ◌>>=◌, ◌>>◌,
}
use hwmgmt_device_mgr_device.Persistence.Redis.{
  Redis, Client, Pool, Page, Floats, Number, int, float,
}
use hwmgmt_device_mgr_device.Persistence.Access.{
  is_db_connect_error, call, read_conn, write_conn, drop_write_pool,
}

abbrev pub data_error : String → String
data_error e = "error while trying to get data: " <> e

-- `if data[i] != "0"`: what stands for a score of 0 is left out.
abbrev pub non_zero : List String → List String
non_zero [] = []
non_zero (x ∷ xs) = if x == "0" then non_zero xs else x ∷ non_zero xs

-- `strings.Split(entry, "::")[1]`
abbrev pub id_part : String → Outcome String String
id_part entry = elim (get_elem? (split_colons entry) 1) [
  | some id ↦ ok id
  | none ↦ panic "index out of range [1] with length 1"
]

unfoldable pub id_parts : List String → Outcome String (List String)
id_parts [] = ok []
id_parts (x ∷ xs) = elim (id_part x) [
  | ok id ↦ elim (id_parts xs) [ ok ids ↦ ok (id ∷ ids) | err e ↦ err e | panic m ↦ panic m ]
  | err e ↦ err e
  | panic m ↦ panic m
]

-- The loop of `getUniqueSlice`, with the values seen so far.
abbrev pub unique : List String → List String → List String
unique seen [] = []
unique seen (x ∷ xs) = if contains seen x then unique seen xs else x ∷ unique (x ∷ seen) xs

abbrev pub get_unique_slice : List String → List String
get_unique_slice xs = unique [] xs

module _ (fl : Floats) where
  -- The `switch` of GetStorageList: an unknown condition holds of nothing.
  abbrev pub meets : String → fl.Float → fl.Float → Bool
  meets condition v match_ =
      if condition == "eq"
      then fl.big_eq match_ v
      else if condition == "gt"
      then fl.lt match_ v
      else if condition == "ge"
      then fl.le match_ v
      else if condition == "lt"
      then fl.lt v match_
      else if condition == "le"
      then fl.le v match_
      else false

  -- The loop over the numbers of one entry.
  unfoldable pub values_met :
      String → fl.Float → String → List String → Outcome String (List String)
  values_met condition m id [] = ok []
  values_met condition m id (x ∷ xs) = elim (fl.parse_float x) [
    | ok v ↦ elim (values_met condition m id xs) [
      | ok ids ↦ ok (if meets condition v m then id ∷ ids else ids)
      | err e ↦ err e
      | panic p ↦ panic p
    ]
    | err e ↦ err e
    | panic p ↦ panic p
  ]

  -- The numbers of an entry, without the brackets.
  abbrev pub numbers : String → List String
  numbers values = split b' ' (replace b'[' "" (replace b']' "" values))

  -- The loop over the entries "[numbers]::id".
  unfoldable pub entries_met : String → fl.Float → List String → Outcome String (List String)
  unfolding values_met
  entries_met condition m [] = ok []
  entries_met condition m (k ∷ ks) = elim (split_colons k) [
    | values ∷ id ∷ _ ↦ elim (values_met condition m id (numbers values)) [
      | ok ids ↦ elim (entries_met condition m ks) [
        | ok later ↦ ok (ids ++ later)
        | err e ↦ err e
        | panic p ↦ panic p
      ]
      | err e ↦ err e
      | panic p ↦ panic p
    ]
    | _ ↦ panic "index out of range [1] with length 1"
  ]

module _ (db : Redis) where
  -- A cursor that is sent.
  abbrev pub Cursor : Type 0
  Cursor = Number db.floats.Float

  -- `strconv.ParseFloat` and `strconv.Atoi` of the cursor of a page.
  abbrev pub float_cursor : String → Outcome String Cursor
  float_cursor s = elim (db.floats.parse_float s) [
    | ok v ↦ ok (float v)
    | err e ↦ err e
    | panic p ↦ panic p
  ]

  abbrev pub int_cursor : String → Outcome String Cursor
  int_cursor s = elim (db.atoi s) [ ok v ↦ ok (int v) | err e ↦ err e | panic p ↦ panic p ]

  abbrev pub on_page :
      (List String → Exec (Client db) String (List String))
      → Page
      → Exec (Client db) String (List String)
  on_page body page = elim page.entries [
    | some (ok xs) ↦ body xs
    | some (err e) ↦ raise (data_error e)
    | some (panic m) ↦ lift (panic m)
    | none ↦ pure []
  ]

  -- A loop over the pages of ZSCAN on one read connection: each page is handed to `body`, and what
  -- it gives is collected until the cursor is "0". The number bounds the pages.
  unfoldable pub scan_from :
      Pool
      → String
      → String
      → (String → Outcome String Cursor)
      → (List String → Exec (Client db) String (List String))
      → ℕ
      → Cursor
      → Exec (Client db) String (List String)
  scan_from conn index match_ next body zero cursor = lift (panic "no more pages")
  scan_from conn index match_ next body (suc n) cursor = do
    page ← on_error (call db (db.zscan conn index cursor match_)) (λ e. raise (data_error e))
    found ← on_page body page
    elim (page.cursor == "0") [
      | true ↦ pure found
      | false ↦ do
        cursor' ← lift (next page.cursor)
        later ← scan_from conn index match_ next body n cursor'
        pure (found ++ later)
    ]

  unfoldable pub get_string :
      ℕ → String → db.floats.Float → String → Bool → Exec (Client db) String (List String)
  unfolding scan_from id_parts
  get_string fuel index cursor match_ regex_flag = do
    conn ← read_conn db
    scan_from conn index (db.to_lower match_) float_cursor
        (λ xs. if regex_flag then pure (non_zero xs) else lift (id_parts (non_zero xs))) fuel
        (float cursor)

  unfoldable pub get_storage_list :
      ℕ
      → String
      → db.floats.Float
      → db.floats.Float
      → String
      → Bool
      → Exec (Client db) String (List String)
  unfolding scan_from entries_met
  get_storage_list fuel index cursor m condition regex_flag = do
    conn ← read_conn db
    list ← scan_from conn index "*" float_cursor (λ xs. pure (non_zero xs)) fuel (float cursor)
    if regex_flag
        then pure list
        else (do ids ← lift (entries_met db.floats condition m list); pure (get_unique_slice ids))

  unfoldable pub get_range : String → ℤ → ℤ → Bool → Exec (Client db) String (List String)
  unfolding id_parts
  get_range index min max regex_flag = do
    conn ← read_conn db
    xs ← on_error (call db (db.zrange_by_score conn index min max)) (λ e. raise (data_error e))
    if regex_flag then pure xs else lift (id_parts xs)

  unfoldable pub get_task_list : String → ℤ → ℤ → Exec (Client db) String (List String)
  get_task_list index min max = do
    conn ← read_conn db
    on_error (call db (db.zrange conn index min max)) (λ e. raise (data_error e))

  -- The write pool becomes nil if the error of a removal is one of the connection.
  unfoldable pub remove_members :
      Pool → String → List String → Exec (Client db) String (List String)
  remove_members conn index [] = pure []
  remove_members conn index (x ∷ xs) = do
    on_error (call db (db.zrem conn index x)) (λ e.
        if is_db_connect_error e
        then (drop_write_pool db >> raise e)
        else raise ("error while trying to delete data: " <> e))
    remove_members conn index xs

  -- One page of Del.
  unfoldable pub del_page : String → List String → Exec (Client db) String (List String)
  unfolding remove_members
  del_page index xs =
      if is_empty xs
      then raise "no data with ID found"
      else (do conn ← write_conn db "WritePool is nil"; remove_members conn index (non_zero xs))

  unfoldable pub del : ℕ → String → String → Exec (Client db) String (Unit {0})
  unfolding scan_from del_page
  del fuel index k = do
    conn ← read_conn db
    scan_from conn index ("*" <> k) int_cursor (del_page index) fuel (int (pos 0))
    pure tt
