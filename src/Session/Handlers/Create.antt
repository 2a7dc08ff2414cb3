-- ===== src/Session/Handlers/Create.antt =====
-- `CreateNewSession` of svc-account-session/session/create.go. The log lines of the refusals read
-- nothing. The lock, which keeps the clean-up of expired sessions out, is not modelled.
use hwmgmt_device_mgr_device.Base.{String, not, [], ◌∷◌, contains, ◌==◌, if◌then◌else◌}
use hwmgmt_device_mgr_device.Base.Text.{◌<>◌}
use hwmgmt_device_mgr_device.Base.Exec.{ok, Exec, pure, lift, on_error, ◌>>=◌, ◌>>◌}
use hwmgmt_device_mgr_device.Response.{Rpc, view, text}
use hwmgmt_device_mgr_device.Response.Messages.{
  created, internal_error, property_unknown, no_valid_session, insufficient_privilege,
  could_not_establish_connection, status_created, status_bad_request, status_unauthorized,
  status_forbidden, status_internal_server_error, status_service_unavailable,
}
use hwmgmt_device_mgr_device.Errors.{Error, is_conn_failed}
use hwmgmt_device_mgr_device.Session.Model.{Time, Session, CreateSession, User, Role, SessionRpc}
use hwmgmt_device_mgr_device.Session.Operations.{time_now}
use hwmgmt_device_mgr_device.Session.CleanUp.{check_session_creation_credentials}
use hwmgmt_device_mgr_device.Session.Views.{View, Handler, refuse, internal, generic}
use hwmgmt_device_mgr_device.Session.Handlers.Operations.{sessions_uri, session_service_type, blank}

-- The session of a user with the privileges of a role.
abbrev pub new_session : String → String → User → Role → Time → Session
new_session id token user role time = record {
  id = id;
  token = token;
  user_name = user.user_name;
  role_id = user.role_id;
  privileges = λ p. contains role.assigned_privileges p;
  origin = "";
  created_time = time;
  last_used_time = time;
}

module _ (ts : SessionRpc) where
  abbrev pub new_id : {E : Type 0} → Exec ts.World E String
  new_id w = let (id, w') = ts.new_v4 w in (ok id, w')

  -- The request, if it can be read and has no property that is unknown.
  abbrev pub read_request : String → Handler ts.World CreateSession
  read_request body = do
    request ← on_error (lift (ts.parse_create_session body)) (λ e.
        refuse status_internal_server_error internal_error
          ("Unable to parse the create session request" <> e) [])
    invalid ← on_error (lift (ts.invalid_properties body)) (λ e.
        refuse status_internal_server_error internal_error
          ("Unable to validate request parameters: " <> e) [])
    if not (invalid == "")
        then refuse status_bad_request property_unknown
            "One or more properties given in the request body are not valid, ensure properties are listed in uppercamelcase "
            (text invalid ∷ [])
        else pure request

  abbrev pub refuse_credentials : {A : Type 0} → Error → Handler ts.World A
  refuse_credentials e =
      let error_message = "Unable to authorize session creation credentials: " <> e.err_msg in
      if is_conn_failed e.err_num
      then refuse status_service_unavailable could_not_establish_connection error_message
          (text ts.on_disk_address ∷ [])
      else refuse status_unauthorized no_valid_session error_message []

  -- The role of a user, which must have the privilege to log in.
  abbrev pub login_role : User → Handler ts.World Role
  login_role user = do
    role ←
        on_error (ts.get_role_details_by_id user.role_id)
          (λ e. internal ("Unable to get role privileges for session creation: " <> e.err_msg))
    if not (contains role.assigned_privileges "Login")
        then refuse status_forbidden insufficient_privilege
            "User doesn't have required privilege to create a session" []
        else pure role

  abbrev pub not_stored : {A : Type 0} → Error → Handler ts.World A
  not_stored e =
      let error_message = "error while trying to insert session details: " <> e.err_msg in
      if is_conn_failed e.err_num
      then refuse status_service_unavailable could_not_establish_connection error_message
          (text ts.in_memory_address ∷ [])
      else refuse status_internal_server_error internal_error error_message []

  -- The session is stored and answered with.
  unfoldable pub open_session : CreateSession → User → Role → Handler ts.World (Rpc View × String)
  open_session request user role = do
    time ← time_now ts
    id ← new_id
    token ← new_id
    on_error (ts.persist_session (new_session id token user role time)) not_stored
    response ←
        generic
          (record blank {
            odata_type = session_service_type;
            odata_id = sessions_uri <> "/" <> id;
            id = id;
            name = "Session Service";
          })
          created
    pure (
      record {
        status_code = status_created;
        status_message = created;
        header =
            ("Link", "<" <> sessions_uri <> "/" <> id <> "/>; rel=self")
            ∷ ("X-Auth-Token", token)
            ∷ [];
        body = view (View.session (record { response = response; user_name = request.user_name }));
      },
      id,
    )

  -- `CreateNewSession`: the response, and the id of the new session.
  unfoldable pub create_new_session : String → Handler ts.World (Rpc View × String)
  unfolding check_session_creation_credentials open_session
  create_new_session body = do
    request ← read_request body
    user ←
        on_error (check_session_creation_credentials ts request.user_name request.password)
          refuse_credentials
    role ← login_role user
    open_session request user role
