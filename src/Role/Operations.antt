-- ===== src/Role/Operations.antt =====
-- `Create` of svc-account-session/role/create.go and the checks of checkprivilege.go.
use hwmgmt_device_mgr_device.Base.{
  String, Bool, not, ◌&&◌, List, [], ◌∷◌, Option, none, some, is_empty, contains, ◌==◌,
  if◌then◌else◌, false,
}
use hwmgmt_device_mgr_device.Base.Text.{◌<>◌}
use hwmgmt_device_mgr_device.Base.Exec.{Outcome, Exec, pure, lift, on_error, ◌>>=◌, ◌>>◌}
use hwmgmt_device_mgr_device.Errors.{Error}
use hwmgmt_device_mgr_device.Response.{
  Rpc, view, text, fill, create_generic_error_response, internal_error_response,
}
use hwmgmt_device_mgr_device.Response.Messages.{
  general_error_code, resource_created, internal_error, property_unknown, property_missing,
  property_value_not_in_list, insufficient_privilege, status_created, status_bad_request,
  status_forbidden, status_conflict, status_internal_server_error,
}
use hwmgmt_device_mgr_device.Session.Model.{Session, Role, SessionRpc}
use hwmgmt_device_mgr_device.Session.Views.{View, Handler, refuse, internal, finish_with, generic}
use hwmgmt_device_mgr_device.Session.Handlers.Access.{refuse_logged}
use hwmgmt_device_mgr_device.Session.Handlers.Operations.{blank}
use hwmgmt_device_mgr_device.Account.Operations.{is_already_there}

-- The calls of asmodel that Create makes, and what it takes from packages: `json.Unmarshal`,
-- `RequestParamsCaseValidator`, and the validator with the tag of RoleId.
pub record RoleRpc (ts : SessionRpc) : Type 0 where
  pub create_role : Role → Exec ts.World Error (Unit {0})
  pub get_privilege_registry : Exec ts.World Error (List String)
  pub get_oem_privileges : Exec ts.World Error (List String)
  pub get_redfish_roles : Exec ts.World Error (List String)
  pub parse_role : String → Outcome String Role
  pub invalid_properties : String → Outcome String String
  pub is_role_id : String → Bool

-- The first requested privilege that the registry lacks.
abbrev pub first_unknown : List String → List String → Option String
first_unknown registry [] = none
first_unknown registry (p ∷ ps) =
    let rest = first_unknown registry ps in if contains registry p then rest else some p

-- The role that is stored.
abbrev pub new_role : Role → Role
new_role request = record request { is_predefined = false }

module _ (ts : SessionRpc) (roles : RoleRpc ts) where
  -- `validateAssignedPrivileges` and `validateOEMPrivileges`, with the refusal.
  abbrev pub check_privileges :
      Exec ts.World Error (List String)
      → String
      → String
      → String
      → List String
      → Handler ts.World (Unit {0})
  check_privileges read doing wrong property wanted = if is_empty wanted then pure tt else do
    registry ←
        on_error read
          (λ e. refuse status_internal_server_error internal_error (doing <> e.err_msg) [])
    elim (first_unknown registry wanted) [
      | none ↦ pure tt
      | some p ↦
          refuse status_bad_request property_value_not_in_list wrong (text p ∷ text property ∷ [])
    ]

  -- The request, if it can be read and has no property that is unknown.
  abbrev pub read_role : String → Handler ts.World Role
  read_role body = do
    request ← on_error (lift (roles.parse_role body)) (λ e.
        refuse status_internal_server_error internal_error ("unable to parse the add request" <> e)
          [])
    invalid ← on_error (lift (roles.invalid_properties body)) (λ e.
        refuse status_internal_server_error internal_error
          ("Unable to validate request parameters: " <> e) [])
    (if invalid == ""
        then pure tt
        else refuse status_bad_request property_unknown
            "One or more properties given in the request body are not valid, ensure properties are listed in uppercamelcase "
            (text invalid ∷ []))
    (if not (request.id == "")
        then pure tt
        else refuse status_bad_request property_missing "error: Mandatory field RoleId is empty"
            (text "RoleId" ∷ []))
    (if roles.is_role_id request.id
        then pure tt
        else refuse status_bad_request property_value_not_in_list "Invalid create role request"
            (text request.id ∷ text "RoleId" ∷ []))
    pure request

  -- `checkForPrivilege`, with the refusal.
  abbrev pub check_for_privilege : Session → Handler ts.World (Unit {0})
  check_for_privilege session =
      if session.privileges "ConfigureUsers"
      then pure tt
      else refuse_logged ts session.token status_forbidden insufficient_privilege
          "User does not have the privilege to create a new role"

  abbrev pub check_role_privileges : Role → Handler ts.World (Unit {0})
  check_role_privileges request = do
    (if not (is_empty request.assigned_privileges && is_empty request.oem_privileges)
        then pure tt
        else refuse status_bad_request property_missing
            "Both AssignedPrivileges and OemPrivileges cannot be empty."
            (text "AssignedPrivileges/OemPrivileges" ∷ []))
    check_privileges roles.get_privilege_registry "error while getting Privileges: "
        "Requested Redfish predefined privilege is not correct" "AssignedPrivileges"
        request.assigned_privileges
    check_privileges roles.get_oem_privileges "error getting OEM Privileges: "
        "Requested OEM privilege is not correct" "OemPrivileges" request.oem_privileges

  -- A role of the Redfish specification is not created.
  abbrev pub check_not_predefined : Role → Handler ts.World (Unit {0})
  check_not_predefined request = do
    predefined ← on_error roles.get_redfish_roles (λ e. internal e.err_msg)
    if not (contains predefined request.id)
        then pure tt
        else refuse status_forbidden insufficient_privilege "Cannot create pre-defined roles" []

  abbrev pub not_stored : Role → Error → Handler ts.World (Unit {0})
  not_stored role e = finish_with (
      if is_already_there e.err_num
      then fill status_conflict general_error_code (
          create_generic_error_response (record {
            code = general_error_code;
            message = "Role with name " <> role.id <> " already exists";
            error_args = [];
          }))
      else internal_error_response ("Unable to create new role: " <> e.err_msg))

  abbrev pub show_role : Role → Handler ts.World (Rpc View)
  show_role role = do
    response ←
        generic
          (record blank {
            odata_type = "#Role.v1_3_1.Role";
            odata_id = "/redfish/v1/AccountService/Roles/" <> role.id;
            name = "User Role";
          })
          resource_created
    pure (record {
      status_code = status_created;
      status_message = resource_created;
      header = [];
      body = view (
          View.user_role (record {
            response = record response { id = role.id };
            is_predefined = role.is_predefined;
            assigned_privileges = role.assigned_privileges;
            oem_privileges = role.oem_privileges;
          }));
    })

  -- `Create`
  unfoldable pub create : String → Session → Handler ts.World (Rpc View)
  create body session = do
    request ← read_role body
    check_for_privilege session
    check_role_privileges request
    check_not_predefined request
    on_error (roles.create_role (new_role request)) (not_stored (new_role request))
    show_role (new_role request)
