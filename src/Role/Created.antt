-- ===== src/Role/Created.antt =====
-- What `Create` of svc-account-session/role/create.go has checked and stored when it answers in full.
use hwmgmt_device_mgr_device.Base.{String, ◌≡◌, ◌≢◌, true, false, ◌&&◌, List, contains, is_empty}
use hwmgmt_device_mgr_device.Base.Exec.{ok, Exec}
use hwmgmt_device_mgr_device.Response.{Rpc}
use hwmgmt_device_mgr_device.Response.Messages.{status_created}
use hwmgmt_device_mgr_device.Session.Model.{Session, Role, SessionRpc}
use hwmgmt_device_mgr_device.Session.Views.{View}
use hwmgmt_device_mgr_device.Role.Operations.{RoleRpc}
use hwmgmt_device_mgr_device.Role.Checked.{put_role, RoleStore, AreKnown}

module _ (ts : SessionRpc) (rs : RoleRpc ts) (st : RoleStore ts rs) where
  -- What Create has looked at and stored, between two worlds.
  pub record CreatedRole (body : String) (session : Session) (r : Rpc View) (w w' : ts.World)
      : Type 0 where
    pub request : Role
    pub parsed : rs.parse_role body ≡ ok request
    pub name : request.id ≢ ""
    pub privilege : session.privileges "ConfigureUsers" ≡ true
    pub given : (is_empty request.assigned_privileges && is_empty request.oem_privileges) ≡ false
    pub assigned : AreKnown ts rs rs.get_privilege_registry request.assigned_privileges
    pub oem : AreKnown ts rs rs.get_oem_privileges request.oem_privileges
    pub predefined : List String
    pub at_roles : ts.World
    pub fetched : (rs.get_redfish_roles at_roles).0 ≡ ok predefined
    pub new : contains predefined request.id ≡ false
    pub stored : st.roles w' ≡ put_role (record request { is_predefined = false }) (st.roles w)
    pub code : r.status_code ≡ status_created
