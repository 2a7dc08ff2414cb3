-- ===== src/Account/Stored.antt =====
-- What `Create` of svc-account-session/account/create.go has checked and stored when it answers in full.
use hwmgmt_device_mgr_device.Base.{String, ◌≡◌, ◌≢◌, true, ◌∷◌, []}
use hwmgmt_device_mgr_device.Base.Exec.{ok}
use hwmgmt_device_mgr_device.Response.{Rpc}
use hwmgmt_device_mgr_device.Response.Messages.{status_created}
use hwmgmt_device_mgr_device.Session.Model.{Session, Role, SessionRpc}
use hwmgmt_device_mgr_device.Session.Views.{View}
use hwmgmt_device_mgr_device.Account.Strong.{IsStrong}
use hwmgmt_device_mgr_device.Account.Model.{Account, AccountRpc, AccountStore, put_user}

module _ (ts : SessionRpc) (accounts : AccountRpc ts) (st : AccountStore ts accounts) where
  -- What Create has looked at and stored, between two worlds.
  pub record Created (body : String) (session : Session) (r : Rpc View) (w w' : ts.World)
      : Type 0 where
    pub account : Account
    pub parsed : accounts.parse_account body ≡ ok account
    pub privilege : session.privileges "ConfigureUsers" ≡ true
    pub name : account.user_name ≢ ""
    pub role : Role
    pub at_role : ts.World
    pub known : (ts.get_role_details_by_id account.role_id at_role).0 ≡ ok role
    pub strong :
        IsStrong accounts.password_rules accounts.to_lower account.user_name account.password
    pub stored :
        st.users w'
        ≡ put_user
            (record {
              user_name = account.user_name;
              password = ts.hashed account.password;
              role_id = account.role_id;
              account_types = "Redfish" ∷ [];
            })
            (st.users w)
    pub code : r.status_code ≡ status_created
