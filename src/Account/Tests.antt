-- ===== src/Account/Tests.antt =====
-- The theorems on accounts at a system with one account, and an administrator as the caller.
use Prim.Native.String.append
use hwmgmt_device_mgr_device.Base.{
  String, ◌≡◌, ◌≢◌, refl, ◌↔◌, true, Option, none, some, [], arith, ◌==◌, eq_iff, eq_ℕ,
  if◌then◌else◌,
}
use hwmgmt_device_mgr_device.Base.Text.{◌<>◌, strip_prefix}
use hwmgmt_device_mgr_device.Base.Exec.{Outcome, ok, err}
use hwmgmt_device_mgr_device.Errors.{ErrType, Error}
use hwmgmt_device_mgr_device.Response.{Rpc, empty, view, create_generic_response}
use hwmgmt_device_mgr_device.Response.Messages.{
  created, account_removed, account_modified, status_ok, status_created, status_no_content,
}
use hwmgmt_device_mgr_device.Session.Model.{Session, User, SessionRpc}
use hwmgmt_device_mgr_device.Session.Sample.{alice, sample_user, sample_role}
use hwmgmt_device_mgr_device.Session.Views.{View}
use hwmgmt_device_mgr_device.Account.Password.{
  PasswordRules, any_char, contains_text, validate_password,
}
use hwmgmt_device_mgr_device.Account.Strong.{IsStrong, validate_password-IsStrong}
use hwmgmt_device_mgr_device.Account.Model.{
  Account, AccountRpc, AccountStore, Users, put_user, drop_user, updated_user,
}
use hwmgmt_device_mgr_device.Account.Operations.{
  account_response, account_headers, account_view, requested_user, hashed_user,
}
use hwmgmt_device_mgr_device.Account.Changes.{delete, update}
use hwmgmt_device_mgr_device.Account.Changed.{Updated, delete-gone, update-Updated}

abbrev missing : Error
missing = record { err_num = ErrType.db_key_not_found; err_msg = "not found" }

abbrev read_user : String → Option User → Outcome Error User
read_user name none = err missing
read_user name (some x) = if x.user_name == name then ok x else err missing

read_user-ok :
    (name : String) (o : Option User) {x : User}
    → read_user name o ≡ ok x
    → (o ≡ some x) × (x.user_name ≡ name)
read_user-ok name none h = cc
read_user-ok name (some x) h = (ground arith, ground (arith, eq_iff x.user_name name))

abbrev small : SessionRpc
small = record {
  World = Users;
  get_session = λ token w. (err missing, w);
  update_session = λ x w. (ok tt, w);
  persist_session = λ x w. (ok tt, w);
  delete_stored = λ x w. (ok tt, w);
  get_all_session_keys = λ w. (ok [], w);
  get_user_details = λ name w. (read_user name (w name), w);
  get_role_details_by_id = λ id w. (ok (sample_role id), w);
  last_clean_up = λ w. 0;
  set_last_clean_up = λ time w. w;
  hashed = λ s. "#" <> s;
  new_v4 = λ w. ("u1", w);
  in_memory_address = "10.0.0.9:6379";
  on_disk_address = "10.0.0.8:6380";
  enabled_services = [];
  parse_create_session = λ s. err s;
  invalid_properties = λ s. ok "";
  now = λ w. (100, w);
  go_expired_session_clean_up = λ w. w;
  session_time_out = 50;
  clean_up_time = 10;
}

abbrev rules : PasswordRules
rules = record { min_password_length = 4; max_password_length = 10; is_special = λ c. eq_ℕ c 35 }

abbrev carol : Account
carol = record { user_name = "carol"; password = "Abc12#"; role_id = "Client" }

abbrev promotion : Account
promotion = record { user_name = ""; password = ""; role_id = "Operator" }

abbrev accounts : AccountRpc small
accounts = record {
  create_user = λ x w. (ok tt, put_user x w);
  update_user_details = λ x y w. (ok tt, put_user (updated_user x y) w);
  delete_user = λ name w. (ok tt, drop_user name w);
  parse_account = λ s. if s == "new" then ok carol else ok promotion;
  properties = λ s. 1;
  invalid_properties = λ s. ok "";
  password_rules = rules;
  to_lower = λ s. s;
}

abbrev store : AccountStore small accounts
store = record {
  users = λ w. w;
  get-ok = λ name w h. (read_user-ok name (w name) h).0;
  get-name = λ name w h. (read_user-ok name (w name) h).1;
  get-users = λ name w. refl;
  role-users = λ id w. refl;
  create-ok = λ x w h. refl;
  update-ok = λ x y w h. refl;
  delete-ok = λ name w h. refl;
}

abbrev admin : Session
admin = record alice { user_name = "admin"; privileges = λ p. true }

abbrev bob : Users
bob = put_user (sample_user "bob") (λ k. none)

abbrev added : Rpc View
added = record {
  status_code = status_created;
  status_message = created;
  header = account_headers "carol";
  body = view (
      View.account (
        account_view
          (record (account_response "carol") {
            message = "The resource has been created successfully";
            message_id = created;
            severity = "OK";
          })
          (hashed_user small accounts (requested_user small accounts carol))));
}

abbrev removed : Rpc View
removed = record {
  status_code = status_no_content;
  status_message = account_removed;
  header = [];
  body = empty;
}

abbrev bob_id : String
bob_id = "bob"

delete-gone_example :
    (bob_id ≢ "admin")
    × (admin.privileges "ConfigureUsers" ≡ true)
    × ((delete small accounts admin "bob" bob).1 ≡ drop_user "bob" bob)
unfolding delete
delete-gone_example = delete-gone small accounts store admin "bob" bob {r = removed} refl

abbrev promoted : Rpc View
promoted = record {
  status_code = status_ok;
  status_message = account_modified;
  header = account_headers "bob";
  body = view (
      View.account (
        account_view
          (record (account_response "bob") {
            message = "The account was successfully modified.";
            message_id = account_modified;
            severity = "OK";
          })
          (record (sample_user "bob") { role_id = "Operator" })));
}

hash_some : (text : String) → small.hashed text ≢ ""
hash_some text h = cc (rw append.cons at h)

update-Updated_example :
    Updated small accounts store "promote" "bob" admin bob
      (update small accounts "promote" "bob" admin bob).1
unfolding update create_generic_response
update-Updated_example =
    update-Updated small accounts store "promote" "bob" admin bob {r = promoted} hash_some refl

validate_password-IsStrong_example :
    (validate_password rules (λ s. s) "carol" "Abc12#" ≡ none)
    ↔ IsStrong rules (λ s. s) "carol" "Abc12#"
validate_password-IsStrong_example = validate_password-IsStrong rules (λ s. s) "carol" "Abc12#"

long_password_test :
    validate_password rules (λ s. s) "carol" "Abc12#Abc12#"
    ≡ some "error: invalid password, password length is greater than the maximum length"
unfolding validate_password any_char contains_text strip_prefix
long_password_test = refl
