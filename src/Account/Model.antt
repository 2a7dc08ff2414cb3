-- ===== src/Account/Model.antt =====
-- What the account package of svc-account-session uses: its `ExternalInterface`, and the calls of
-- asmodel/account.go.
use hwmgmt_device_mgr_device.Base.{String, ℕ, ◌≡◌, Option, some, none, ◌==◌, if◌then◌else◌}
use hwmgmt_device_mgr_device.Base.Exec.{ok, Exec, Outcome}
use hwmgmt_device_mgr_device.Errors.{Error}
use hwmgmt_device_mgr_device.Session.Model.{User, SessionRpc}
use hwmgmt_device_mgr_device.Account.Password.{PasswordRules}

-- `Account`: the body of a request.
pub record Account : Type 0 where
  pub user_name : String
  pub password : String
  pub role_id : String

pub record AccountRpc (ts : SessionRpc) : Type 0 where
  pub create_user : User → Exec ts.World Error (Unit {0})
  pub update_user_details : User → User → Exec ts.World Error (Unit {0})
  pub delete_user : String → Exec ts.World Error (Unit {0})
  -- `json.Unmarshal` of a request, the number of its properties, and `RequestParamsCaseValidator`.
  pub parse_account : String → Outcome String Account
  pub properties : String → ℕ
  pub invalid_properties : String → Outcome String String
  pub password_rules : PasswordRules
  -- `strings.ToLower`
  pub to_lower : String → String

abbrev pub Users : Type 0
Users = String → Option User

abbrev pub put_user : User → Users → Users
put_user x s k = if x.user_name == k then some x else s k

abbrev pub drop_user : String → Users → Users
drop_user name s k = if name == k then none else s k

-- The record that `UpdateUserDetails` writes.
abbrev pub updated_user : User → User → User
updated_user user new_data = record user {
  password = if new_data.password == "" then user.password else new_data.password;
  role_id = if new_data.role_id == "" then user.role_id else new_data.role_id;
}

-- What accounts rely on: a read shows the stored user and changes none, and a write that reports
-- success has been done.
pub record AccountStore (ts : SessionRpc) (accounts : AccountRpc ts) : Type 1 where
  pub users : ts.World → Users
  pub get-ok :
      (name : String) (w : ts.World) {x : User}
      → (ts.get_user_details name w).0 ≡ ok x
      → users w name ≡ some x
  pub get-name :
      (name : String) (w : ts.World) {x : User}
      → (ts.get_user_details name w).0 ≡ ok x
      → x.user_name ≡ name
  pub get-users : (name : String) (w : ts.World) → users (ts.get_user_details name w).1 ≡ users w
  pub role-users : (id : String) (w : ts.World) → users (ts.get_role_details_by_id id w).1 ≡ users w
  pub create-ok :
      (x : User) (w : ts.World)
      → (accounts.create_user x w).0 ≡ ok tt
      → users (accounts.create_user x w).1 ≡ put_user x (users w)
  pub update-ok :
      (x y : User) (w : ts.World)
      → (accounts.update_user_details x y w).0 ≡ ok tt
      → users (accounts.update_user_details x y w).1 ≡ put_user (updated_user x y) (users w)
  pub delete-ok :
      (name : String) (w : ts.World)
      → (accounts.delete_user name w).0 ≡ ok tt
      → users (accounts.delete_user name w).1 ≡ drop_user name (users w)
