-- ===== src/Session/Handlers/Operations.antt =====
-- The session handlers of svc-account-session/session: delete.go and getsession.go.
use hwmgmt_device_mgr_device.Base.{
  String, Bool, ◌&&◌, ◌||◌, not, List, [], ◌∷◌, ◌==◌, if◌then◌else◌, Option, some, none,
}
use hwmgmt_device_mgr_device.Base.Text.{◌<>◌}
use hwmgmt_device_mgr_device.Base.Exec.{ok, err, panic, Exec, pure, on_error, ◌>>=◌, ◌>>◌}
use hwmgmt_device_mgr_device.Response.{Rpc, Response, empty, view, text}
use hwmgmt_device_mgr_device.Response.Messages.{
  success, resource_removed, no_valid_session, insufficient_privilege, resource_not_found,
  status_ok, status_no_content, status_unauthorized, status_forbidden, status_not_found,
}
use hwmgmt_device_mgr_device.Session.Model.{Session, SessionRpc}
use hwmgmt_device_mgr_device.Session.Operations.{check_session_time_out, custom_auth_log}
use hwmgmt_device_mgr_device.Session.Views.{View, Handler, refuse, internal}
use hwmgmt_device_mgr_device.Session.Handlers.Access.{
  update_last_used_time, current_session, refuse_logged, authorized_session,
}

-- `sessionproto.SessionRequest`
pub record SessionRequest : Type 0 where
  pub session_id : String
  pub session_token : String

abbrev pub sessions_uri : String
sessions_uri = "/redfish/v1/SessionService/Sessions"

-- `checkPrivilege`: a user with ConfigureSelf on a session of their own, or one with ConfigureUsers.
abbrev pub check_privilege : Session → Session → Bool
check_privilege session current =
    ((session.user_name == current.user_name) && current.privileges "ConfigureSelf")
    || current.privileges "ConfigureUsers"

abbrev pub blank : Response
blank = record {
  odata_type = "";
  odata_id = "";
  odata_context = "";
  description = "";
  id = "";
  name = "";
  message = "";
  message_id = "";
  message_args = [];
  number_of_args = 0;
  severity = "";
}

-- `common.SessionType` and `common.SessionServiceType`
abbrev pub session_type : String
session_type = "#Session.v1_3_0.Session"

abbrev pub session_service_type : String
session_service_type = "#SessionService.v1_1_8.SessionService"

module _ (ts : SessionRpc) where
  abbrev pub get_session_user_name : SessionRequest → Exec ts.World String String
  get_session_user_name req = do
    session ← current_session ts req.session_token
    pure session.user_name

  abbrev pub get_session_user_role_id : SessionRequest → Exec ts.World String String
  get_session_user_role_id req = do
    session ← current_session ts req.session_token
    pure session.role_id

  abbrev pub all_keys : String → Handler ts.World (List String)
  all_keys doing = on_error ts.get_all_session_keys (λ e. internal (doing <> e.err_msg))

  -- The loop that looks for a session by its id, among those that are valid.
  unfoldable pub find_by_id :
      Handler ts.World (Unit {0})
      → String
      → List String
      → Handler ts.World (Option (String × Session))
  find_by_id passed id [] w = pure none w
  find_by_id passed id (token ∷ tokens) w =
      let later = find_by_id passed id tokens in
      let (r, w') = check_session_time_out ts token w in
      elim r [
        | ok x ↦ (if x.id == id then pure (some (token, x)) else later) w'
        | err e ↦ (passed >> later) w'
        | panic p ↦ (panic p, w')
      ]

  unfoldable pub delete_found : SessionRequest → Session → Session → Handler ts.World (Rpc View)
  unfolding update_last_used_time custom_auth_log
  delete_found req current session =
      if check_privilege session current
      then (do
        (if not (req.session_token == session.token)
            then on_error (update_last_used_time ts req.session_token) (λ e. internal (
                "Unable to update last used time of session matching token " <> req.session_token
                <> ": " <> e))
            else pure tt)
        on_error (ts.delete_stored session)
            (λ e. internal ("Unable to get all session keys while deleting session: " <> e.err_msg))
        pure (record {
          status_code = status_no_content;
          status_message = resource_removed;
          header = [];
          body = empty;
        }))
      else refuse_logged ts req.session_token status_forbidden insufficient_privilege
          "Insufficient privileges"

  abbrev pub finish_delete :
      SessionRequest → Session → Option (String × Session) → Handler ts.World (Rpc View)
  finish_delete req current none =
      refuse status_not_found resource_not_found "error: Session ID not found"
        (text "Session" ∷ text req.session_id ∷ [])
  finish_delete req current (some (token, session)) = delete_found req current session

  -- `DeleteSession`
  unfoldable pub delete_session : SessionRequest → Handler ts.World (Rpc View)
  delete_session req = do
    current ← on_error (ts.get_session req.session_token) (λ e.
        refuse status_unauthorized no_valid_session ("Unable to delete session: " <> e.err_msg) [])
    tokens ← all_keys "Unable to get all session keys while deleting session: "
    found ← find_by_id (pure tt) req.session_id tokens
    finish_delete req current found

  abbrev pub show_found : SessionRequest → Session → String → Session → Handler ts.World (Rpc View)
  show_found req current token session =
      if check_privilege session current
      then pure (record {
        status_code = status_ok;
        status_message = success;
        header =
            ("Link", "<" <> sessions_uri <> "/" <> req.session_id <> "/>; rel=self")
            ∷ ("X-Auth-Token", token)
            ∷ [];
        body = view (
            View.session (record {
              response = record blank {
                odata_type = session_type;
                odata_id = sessions_uri <> "/" <> req.session_id;
                id = req.session_id;
                name = "User Session";
              };
              user_name = session.user_name;
            }));
      })
      else refuse_logged ts req.session_token status_forbidden insufficient_privilege
          "The session doesn't have the requisite privileges for the action"

  -- `GetSession`
  unfoldable pub get_session : SessionRequest → Handler ts.World (Rpc View)
  unfolding authorized_session find_by_id custom_auth_log
  get_session req = do
    current ← authorized_session ts "matching" req.session_token
    tokens ← all_keys "Unable to get all session keys while deleting session: "
    found ← find_by_id (custom_auth_log ts req.session_token) req.session_id tokens
    elim found [
      | none ↦
          refuse status_not_found resource_not_found
            ("No session with id " <> req.session_id <> " found.")
            (text "Session" ∷ text req.session_id ∷ [])
      | some (token, session) ↦ show_found req current token session
    ]
