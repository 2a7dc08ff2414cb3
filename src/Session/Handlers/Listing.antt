-- ===== src/Session/Handlers/Listing.antt =====
-- The session handlers of svc-account-session/session: GetAllActiveSessions and GetSessionService of getsession.go.
use hwmgmt_device_mgr_device.Base.{
  String, ◌&&◌, not, List, [], ◌∷◌, contains, length, if◌then◌else◌,
}
use hwmgmt_device_mgr_device.Base.Text.{◌<>◌}
use hwmgmt_device_mgr_device.Base.Exec.{ok, err, panic, pure, lift, ◌>>=◌, ◌>>◌}
use hwmgmt_device_mgr_device.Response.{Rpc, view}
use hwmgmt_device_mgr_device.Response.Messages.{success, status_ok}
use hwmgmt_device_mgr_device.Session.Model.{Session, SessionRpc}
use hwmgmt_device_mgr_device.Session.Operations.{check_session_time_out}
use hwmgmt_device_mgr_device.Session.Views.{View, Handler, ListView, generic}
use hwmgmt_device_mgr_device.Session.Handlers.Access.{authorized_session}
use hwmgmt_device_mgr_device.Session.Handlers.Operations.{
  SessionRequest, sessions_uri, check_privilege, blank, session_service_type, all_keys,
}

-- The collection of sessions in an answer.
abbrev pub collection : List String → ListView
collection members = record {
  response = record blank {
    odata_type = "#SessionCollection.SessionCollection";
    odata_id = sessions_uri;
    odata_context = "/redfish/v1/$metadata#SessionCollection.SessionCollection";
    name = "Session Service";
  };
  members_count = length members;
  members = members;
}

module _ (ts : SessionRpc) where
  -- The loop of GetAllActiveSessions: what is not valid is passed over.
  unfoldable pub visible_sessions : Session → List String → Handler ts.World (List String)
  visible_sessions current [] w = pure [] w
  visible_sessions current (token ∷ tokens) w =
      let later = visible_sessions current tokens in
      let (r, w') = check_session_time_out ts token w in
      elim r [
        | ok x ↦
            (if check_privilege x current
                then (do members ← later; pure ((sessions_uri <> "/" <> x.id) ∷ members))
                else later)
              w'
        | err e ↦ later w'
        | panic p ↦ (panic p, w')
      ]

  -- `GetAllActiveSessions`. The text of its refusal is taken of an error that is nil.
  unfoldable pub get_all_active_sessions : SessionRequest → Handler ts.World (Rpc View)
  get_all_active_sessions req = do
    current ← authorized_session ts "with" req.session_token
    (if not (current.privileges "ConfigureSelf") && not (current.privileges "ConfigureUsers")
        then lift (panic "invalid memory address or nil pointer dereference")
        else pure tt)
    tokens ← all_keys ts "Unable to get all session keys in delete session: "
    members ← visible_sessions current tokens
    pure (record {
      status_code = status_ok;
      status_message = success;
      header = [];
      body = view (View.listing (collection members));
    })

  -- `GetSessionService`
  unfoldable pub get_session_service : Handler ts.World (Rpc View)
  get_session_service = do
    let enabled = contains ts.enabled_services "SessionService"
    response ←
        generic
          (record blank {
            odata_type = session_service_type;
            odata_id = "/redfish/v1/SessionService";
            id = "Sessions";
            name = "Session Service";
          })
          success
    pure (record {
      status_code = status_ok;
      status_message = success;
      header = ("Link", "\t</redfish/v1/SchemaStore/en/SessionService.json>; rel=describedby") ∷ [];
      body = view (
          View.service (record {
            response = record response { message_id = ""; message = ""; severity = "" };
            state = if enabled then "Enabled" else "Disabled";
            health = "OK";
            service_enabled = enabled;
            session_timeout = ts.session_time_out;
            sessions = sessions_uri;
          }));
    })
