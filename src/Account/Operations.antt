-- ===== src/Account/Operations.antt =====
-- `Create` of svc-account-session/account/create.go, with the checks that it shares with `Update`.
-- The error that Create returns beside a refusal says what the response says.
use hwmgmt_device_mgr_device.Base.{
  String, Bool, true, false, List, [], ◌∷◌, some, none, ◌==◌, if◌then◌else◌,
}
use hwmgmt_device_mgr_device.Base.Text.{◌<>◌}
use hwmgmt_device_mgr_device.Base.Exec.{pure, lift, on_error, ◌>>=◌, ◌>>◌}
use hwmgmt_device_mgr_device.Errors.{ErrType, Error}
use hwmgmt_device_mgr_device.Response.{
  Rpc, Response, view, text, general_error, internal_error_response,
}
use hwmgmt_device_mgr_device.Response.Messages.{
  created, internal_error, property_unknown, property_missing, property_value_format_error,
  insufficient_privilege, resource_not_found, resource_already_exists, status_created,
  status_bad_request, status_forbidden, status_conflict, status_internal_server_error,
}
use hwmgmt_device_mgr_device.Session.Model.{Session, User, SessionRpc}
use hwmgmt_device_mgr_device.Session.Views.{
  View, AccountView, Handler, refuse, finish_with, generic,
}
use hwmgmt_device_mgr_device.Session.Handlers.Access.{refuse_logged}
use hwmgmt_device_mgr_device.Session.Handlers.Operations.{blank}
use hwmgmt_device_mgr_device.Account.Password.{validate_password}
use hwmgmt_device_mgr_device.Account.Model.{Account, AccountRpc}

-- `CreateAccountRequest` and `UpdateAccountRequest` carry a body; the latter names an account.
abbrev pub default_admin_account : String
default_admin_account = "admin"

abbrev pub is_already_there : ErrType → Bool
is_already_there ErrType.db_key_already_exist = true
is_already_there _ = false

-- `validateRequest`: the names of the fields that are empty.
abbrev pub validate_request : User → String
validate_request user =
    let name = if user.user_name == "" then "UserName " else "" in
    let password = if user.password == "" then name <> "Password " else name in
    if user.role_id == "" then password <> "RoleID" else password

abbrev pub account_response : String → Response
account_response id = record blank {
  odata_type = "#ManagerAccount.v1_8_0.ManagerAccount";
  odata_id = "/redfish/v1/AccountService/Accounts/" <> id;
  odata_context = "/redfish/v1/$metadata#ManagerAccount.ManagerAccount";
  id = id;
  name = "Account Service";
}

abbrev pub account_headers : String → List (String × String)
account_headers name =
    ("Link", "</redfish/v1/AccountService/Accounts/" <> name <> "/>; rel=describedby")
    ∷ ("Location", "/redfish/v1/AccountService/Accounts/" <> name)
    ∷ []

abbrev pub account_view : Response → User → AccountView
account_view response user = record {
  response = response;
  user_name = user.user_name;
  role_id = user.role_id;
  account_types = user.account_types;
  role = "/redfish/v1/AccountService/Roles/" <> user.role_id;
}

module _ (ts : SessionRpc) (accounts : AccountRpc ts) where
  abbrev pub parse_request : String → String → Handler ts.World Account
  parse_request doing body =
      on_error (lift (accounts.parse_account body))
        (λ e. refuse status_internal_server_error internal_error (doing <> e) [])

  -- The refusal of a request with unknown properties.
  abbrev pub check_properties : String → String → Handler ts.World (Unit {0})
  check_properties doing body = do
    invalid ←
        on_error (lift (accounts.invalid_properties body))
          (λ e. refuse status_internal_server_error internal_error (doing <> e) [])
    if invalid == ""
        then pure tt
        else refuse status_bad_request property_unknown
            "One or more properties given in the request body are not valid, ensure properties are listed in uppercamelcase "
            (text invalid ∷ [])

  -- A privilege that the caller must have; the refusal is logged.
  abbrev pub need : Bool → Session → String → Handler ts.World (Unit {0})
  need granted session error_message =
      if granted
      then pure tt
      else refuse_logged ts session.token status_forbidden insufficient_privilege error_message

  abbrev pub check_password : String → String → Handler ts.World (Unit {0})
  check_password user_name password =
      elim (validate_password accounts.password_rules accounts.to_lower user_name password) [
        | none ↦ pure tt
        | some error_message ↦
            refuse status_bad_request property_value_format_error error_message
              (text password ∷ text "Password" ∷ [])
      ]

  -- The user that a request asks for, once all is checked.
  abbrev pub check_new_user : User → Handler ts.World (Unit {0})
  check_new_user user = do
    let invalid_params = validate_request user
    (if invalid_params == ""
        then pure tt
        else refuse status_bad_request property_missing
            ("Mandatory fields " <> invalid_params <> " are empty") (text invalid_params ∷ []))
    on_error (ts.get_role_details_by_id user.role_id) (λ e.
        refuse status_bad_request resource_not_found ("Invalid RoleID present " <> e.err_msg)
          (text "Role" ∷ text user.role_id ∷ []))
    check_password user.user_name user.password

  abbrev pub not_created : User → Error → Handler ts.World (Unit {0})
  not_created user e = finish_with (
      let error_message = "Unable to add new user: " <> e.err_msg in
      if is_already_there e.err_num
      then general_error status_conflict resource_already_exists error_message
          (text "ManagerAccount" ∷ text "Id" ∷ text user.user_name ∷ [])
      else internal_error_response error_message)

  abbrev pub requested_user : Account → User
  requested_user a = record {
    user_name = a.user_name;
    password = a.password;
    role_id = a.role_id;
    account_types = [];
  }

  abbrev pub hashed_user : User → User
  hashed_user user = record user {
    password = ts.hashed user.password;
    account_types = "Redfish" ∷ [];
  }

  abbrev pub show_created : User → Handler ts.World (Rpc View)
  show_created user = do
    response ← generic (account_response user.user_name) created
    pure (record {
      status_code = status_created;
      status_message = created;
      header = account_headers user.user_name;
      body = view (View.account (account_view response user));
    })

  -- `Create`
  unfoldable pub create : String → Session → Handler ts.World (Rpc View)
  create body session = do
    account ← parse_request "Unable to parse the create account request" body
    check_properties "While validating request parameters: " body
    need (session.privileges "ConfigureUsers") session
        "User does not have the privilege to create a new user"
    check_new_user (requested_user account)
    on_error (accounts.create_user (hashed_user (requested_user account)))
        (not_created (hashed_user (requested_user account)))
    show_created (hashed_user (requested_user account))
