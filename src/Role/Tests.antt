-- ===== src/Role/Tests.antt =====
-- The creation of a role at a system without roles, with an administrator as the caller.
use hwmgmt_device_mgr_device.Base.{refl, true, none, [], ◌∷◌, false}
use hwmgmt_device_mgr_device.Base.Exec.{ok, err}
use hwmgmt_device_mgr_device.Errors.{ErrType, Error}
use hwmgmt_device_mgr_device.Response.{Rpc, view}
use hwmgmt_device_mgr_device.Response.Messages.{resource_created, status_created}
use hwmgmt_device_mgr_device.Session.Model.{Session, Role, SessionRpc}
use hwmgmt_device_mgr_device.Session.Sample.{alice, sample_user, sample_role}
use hwmgmt_device_mgr_device.Session.Views.{View}
use hwmgmt_device_mgr_device.Session.Handlers.Operations.{blank}
use hwmgmt_device_mgr_device.Role.Operations.{RoleRpc}
use hwmgmt_device_mgr_device.Role.Checked.{Roles, put_role, RoleStore}

abbrev missing : Error
missing = record { err_num = ErrType.db_key_not_found; err_msg = "not found" }

abbrev with_roles : SessionRpc
with_roles = record {
  World = Roles;
  get_session = λ token w. (err missing, w);
  update_session = λ x w. (ok tt, w);
  persist_session = λ x w. (ok tt, w);
  delete_stored = λ x w. (ok tt, w);
  get_all_session_keys = λ w. (ok [], w);
  get_user_details = λ name w. (ok (sample_user name), w);
  get_role_details_by_id = λ id w. (ok (sample_role id), w);
  last_clean_up = λ w. 0;
  set_last_clean_up = λ time w. w;
  hashed = λ s. s;
  new_v4 = λ w. ("u1", w);
  in_memory_address = "10.0.0.9:6379";
  on_disk_address = "10.0.0.8:6380";
  enabled_services = [];
  parse_create_session = λ s. err s;
  invalid_properties = λ s. ok "";
  now = λ w. (100, w);
  go_expired_session_clean_up = λ w. w;
  session_time_out = 50;
  clean_up_time = 10;
}

abbrev auditor : Role
auditor = record {
  id = "Auditor";
  is_predefined = true;
  assigned_privileges = "Login" ∷ [];
  oem_privileges = [];
}

abbrev rs : RoleRpc with_roles
rs = record {
  create_role = λ x w. (ok tt, put_role x w);
  get_privilege_registry = λ w. (ok ("Login" ∷ "ConfigureSelf" ∷ []), w);
  get_oem_privileges = λ w. (ok [], w);
  get_redfish_roles = λ w. (ok ("Administrator" ∷ []), w);
  parse_role = λ s. ok auditor;
  invalid_properties = λ s. ok "";
  is_role_id = λ s. true;
}

abbrev store : RoleStore with_roles rs
store = record {
  roles = λ w. w;
  registry-roles = λ w. refl;
  oem-roles = λ w. refl;
  redfish-roles = λ w. refl;
  create-ok = λ x w h. refl;
}

abbrev admin : Session
admin = record alice { user_name = "admin"; privileges = λ p. true }

abbrev no_roles : Roles
no_roles k = none

abbrev added : Rpc View
added = record {
  status_code = status_created;
  status_message = resource_created;
  header = [];
  body = view (
      View.user_role (record {
        response = record blank {
          odata_type = "#Role.v1_3_1.Role";
          odata_id = "/redfish/v1/AccountService/Roles/Auditor";
          id = "Auditor";
          name = "User Role";
          message = "The resource has been created successfully.";
          message_id = resource_created;
          severity = "OK";
        };
        is_predefined = false;
        assigned_privileges = "Login" ∷ [];
        oem_privileges = [];
      }));
}
