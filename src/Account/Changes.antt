-- ===== src/Account/Changes.antt =====
-- `Delete` of svc-account-session/account/delete.go and `Update` of update.go.
use hwmgmt_device_mgr_device.Base.{String, not, [], ◌∷◌, ◌==◌, if◌then◌else◌, leb, ◌||◌}
use hwmgmt_device_mgr_device.Base.Text.{◌<>◌}
use hwmgmt_device_mgr_device.Base.Exec.{pure, on_error, ◌>>=◌, ◌>>◌}
use hwmgmt_device_mgr_device.Errors.{Error, is_key_not_found}
use hwmgmt_device_mgr_device.Response.{
  Rpc, empty, view, text, fill, create_generic_error_response, general_error,
  internal_error_response,
}
use hwmgmt_device_mgr_device.Response.Messages.{
  general_error_code, property_missing, property_value_not_in_list, resource_not_found,
  resource_cannot_be_deleted, account_removed, account_modified, status_ok, status_no_content,
  status_bad_request, status_not_found,
}
use hwmgmt_device_mgr_device.Session.Model.{Session, User, SessionRpc}
use hwmgmt_device_mgr_device.Session.Views.{View, Handler, refuse, internal, finish_with, generic}
use hwmgmt_device_mgr_device.Account.Model.{Account, AccountRpc}
use hwmgmt_device_mgr_device.Account.Operations.{
  default_admin_account, account_response, account_headers, account_view, parse_request,
  check_properties, need, check_password,
}

module _ (ts : SessionRpc) (accounts : AccountRpc ts) where
  -- The answer where the named account cannot be reached.
  abbrev pub not_reached : {A : Type 0} → String → String → Error → Handler ts.World A
  not_reached doing id e = finish_with (
      let error_message = doing <> e.err_msg in
      if is_key_not_found e.err_num
      then general_error status_not_found resource_not_found error_message
          (text "Account" ∷ text id ∷ [])
      else internal_error_response error_message)

  -- `Delete`
  unfoldable pub delete : Session → String → Handler ts.World (Rpc View)
  delete session account_id = do
    (if not (account_id == default_admin_account)
        then pure tt
        else refuse status_bad_request resource_cannot_be_deleted
            "default user account can not be deleted" [])
    need ts accounts (session.privileges "ConfigureUsers") session
        (session.user_name <> " does not have the privilege to delete user")
    on_error (accounts.delete_user account_id) (not_reached "Unable to delete user: " account_id)
    pure (record {
      status_code = status_no_content;
      status_message = account_removed;
      header = [];
      body = empty;
    })

  -- The role of an update, unless it is predefined, must be there.
  abbrev pub check_role : String → Handler ts.World (Unit {0})
  check_role role_id =
      if (role_id == "")
        || (role_id == "Administrator")
        || (role_id == "Operator")
        || (role_id == "ReadOnly")
      then pure tt
      else on_error (ts.get_role_details_by_id role_id >> pure tt) (λ e.
        refuse status_bad_request property_value_not_in_list
          ("Invalid RoleID " <> role_id <> " present") (text role_id ∷ text "RoleID" ∷ []))

  -- The request of an update, as far as it can be checked by itself.
  abbrev pub read_update : String → Handler ts.World Account
  read_update body = do
    account ← parse_request ts accounts "unable to parse the update account request" body
    (if not (leb (accounts.properties body) 0)
        then pure tt
        else refuse status_bad_request property_missing "empty request can not be processed"
            (text "request body" ∷ []))
    (if account.user_name == ""
        then pure tt
        else finish_with (
            fill status_bad_request general_error_code (
              create_generic_error_response (record {
                code = general_error_code;
                message = "Username cannot be modified";
                error_args = [];
              }))))
    check_properties ts accounts "Request parameters validaton failed: " body
    check_role account.role_id
    pure account

  abbrev pub find_user : String → Handler ts.World User
  find_user id = on_error (ts.get_user_details id) (not_reached "Unable to get account: " id)

  -- A new password, which a privilege allows and the rules admit.
  abbrev pub change_password : Session → User → Account → Handler ts.World (Unit {0})
  change_password session user account =
      if account.password == ""
      then pure tt
      else (need ts accounts
            (session.privileges "ConfigureSelf" || session.privileges "ConfigureUsers") session
            "Roles, user is associated with, doesn't allow changing own or other users password"
          >> check_password ts accounts user.user_name account.password)

  -- The privileges that an update asks for.
  abbrev pub may_update : Session → User → Account → Handler ts.World (Unit {0})
  may_update session user account = do
    need ts accounts ((user.user_name == session.user_name) || session.privileges "ConfigureUsers")
        session "User does not have the privilege to update other accounts"
    need ts accounts ((account.role_id == "") || session.privileges "ConfigureUsers") session
        "User does not have the privilege to update any account role, including his own account"
    change_password session user account

  -- What an update asks to be written.
  abbrev pub new_data : Account → User
  new_data account = record {
    user_name = account.user_name;
    password = if account.password == "" then "" else ts.hashed account.password;
    role_id = account.role_id;
    account_types = "Redfish" ∷ [];
  }

  abbrev pub show_updated : String → User → Account → Handler ts.World (Rpc View)
  show_updated id user account = do
    response ← generic (account_response id) account_modified
    pure (record {
      status_code = status_ok;
      status_message = account_modified;
      header = account_headers user.user_name;
      body = view (
          View.account (
            account_view response (record user {
              role_id = if account.role_id == "" then user.role_id else account.role_id;
            })));
    })

  -- `Update`
  unfoldable pub update : String → String → Session → Handler ts.World (Rpc View)
  update body id session = do
    account ← read_update body
    user ← find_user id
    may_update session user account
    on_error (accounts.update_user_details user (new_data account))
        (λ e. internal ("Unable to update user: " <> e.err_msg))
    show_updated id user account
