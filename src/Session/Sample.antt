-- ===== src/Session/Sample.antt =====
-- A system with one session, of a user who may log in, at time 100.
use hwmgmt_device_mgr_device.Base.{
  String, ◌≡◌, refl, Bool, true, Option, none, some, [], ◌∷◌, arith, ◌==◌, eq_iff, if◌then◌else◌,
  inr,
}
use hwmgmt_device_mgr_device.Base.Exec.{Outcome, ok, err}
use hwmgmt_device_mgr_device.Errors.{ErrType, Error}
use hwmgmt_device_mgr_device.Session.Model.{
  Session, SessionRpc, SessionStore, Sessions, put_session, User, Role, drop_session,
}
use hwmgmt_device_mgr_device.Base.Text.{◌<>◌}

abbrev pub read_back : String → Option Session → Outcome Error Session
read_back token none = err (record { err_num = ErrType.db_key_not_found; err_msg = "not found" })
read_back token (some x) =
    if x.token == token
    then ok x
    else err (record { err_num = ErrType.undefined_error_type; err_msg = "damaged" })

abbrev pub sample_user : String → User
sample_user name = record {
  user_name = name;
  password = "#secret";
  role_id = "Client";
  account_types = [];
}

abbrev pub sample_role : String → Role
sample_role id = record {
  id = id;
  is_predefined = true;
  assigned_privileges = "Login" ∷ "ConfigureSelf" ∷ [];
  oem_privileges = [];
}

abbrev pub sample : SessionRpc
sample = record {
  World = Sessions;
  get_session = λ token w. (read_back token (w token), w);
  update_session = λ x w. (ok tt, put_session x w);
  persist_session = λ x w. (ok tt, put_session x w);
  delete_stored = λ x w. (ok tt, drop_session x.token w);
  get_all_session_keys = λ w. (ok ("t1" ∷ "t2" ∷ []), w);
  get_user_details = λ name w. (ok (sample_user name), w);
  get_role_details_by_id = λ id w. (ok (sample_role id), w);
  last_clean_up = λ w. 0;
  set_last_clean_up = λ time w. w;
  hashed = λ s. "#" <> s;
  new_v4 = λ w. ("u1", w);
  in_memory_address = "10.0.0.9:6379";
  on_disk_address = "10.0.0.8:6380";
  enabled_services = "SessionService" ∷ [];
  parse_create_session = λ s. ok (record { user_name = "alice"; password = s });
  invalid_properties = λ s. ok "";
  now = λ w. (100, w);
  go_expired_session_clean_up = λ w. w;
  session_time_out = 50;
  clean_up_time = 10;
}

pub read_back-ok :
    (token : String) (o : Option Session) {x : Session}
    → read_back token o ≡ ok x
    → (o ≡ some x) × (x.token ≡ token)
read_back-ok token none h = cc
read_back-ok token (some x) h = (ground arith, ground (arith, eq_iff x.token token))

abbrev pub sample_store : SessionStore sample
sample_store = record {
  sessions = λ w. w;
  get-sessions = λ token w. refl;
  get-ok = λ token w h. (read_back-ok token (w token) h).0;
  get-token = λ token w h. (read_back-ok token (w token) h).1;
  update-ok = λ x w h. refl;
  update-any = λ x w. inr refl;
  persist-ok = λ x w h. refl;
  delete-ok = λ x w h. refl;
  delete-any = λ x w. inr refl;
  keys-sessions = λ w. refl;
  user-sessions = λ name w. refl;
  role-sessions = λ id w. refl;
  mark-sessions = λ time w. refl;
  uuid-sessions = λ w. refl;
  now-sessions = λ w. refl;
  spawn-sessions = λ w. refl;
}

abbrev pub login_only : String → Bool
login_only p = p == "Login"

abbrev pub alice : Session
alice = record {
  id = "s1";
  token = "t1";
  user_name = "alice";
  role_id = "ReadOnly";
  privileges = login_only;
  origin = "";
  created_time = 10;
  last_used_time = 60;
}

abbrev pub one_session : Sessions
one_session = put_session alice (λ _. none)
