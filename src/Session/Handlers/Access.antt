-- ===== src/Session/Handlers/Access.antt =====
-- What the handlers of svc-account-session share: `UpdateLastUsedTime` of session/update.go, the
-- check of the caller's session with its refusals, as in session/getsession.go and role/delete.go.
use hwmgmt_device_mgr_device.Base.{String, ℤ, [], ◌∷◌, eq_ℤ, if◌then◌else◌}
use hwmgmt_device_mgr_device.Base.Text.{◌<>◌}
use hwmgmt_device_mgr_device.Base.Exec.{Exec, pure, raise, on_error, ◌>>=◌, ◌>>◌}
use hwmgmt_device_mgr_device.Response.{text}
use hwmgmt_device_mgr_device.Response.Messages.{status_service_unavailable}
use hwmgmt_device_mgr_device.Errors.{Error, get_auth_status_code_and_message}
use hwmgmt_device_mgr_device.Session.Model.{Session, SessionRpc}
use hwmgmt_device_mgr_device.Session.Operations.{time_now, check_session_time_out, custom_auth_log}
use hwmgmt_device_mgr_device.Session.Views.{Handler, refuse, internal}

module _ (ts : SessionRpc) where
  unfoldable pub update_last_used_time : String → Exec ts.World String (Unit {0})
  update_last_used_time token = do
    session ← on_error (ts.get_session token) (λ e. raise (
        "error while trying to get the session details with the token " <> token <> ": "
        <> e.err_msg))
    time ← time_now ts
    on_error (ts.update_session (record session { last_used_time = time }))
        (λ e. raise ("error while trying to update session details: " <> e.err_msg))

  -- The session of a token that is valid, used now: GetSessionUserName answers with its user and
  -- GetSessionUserRoleID with its role. An error is the text of a Go error.
  unfoldable pub current_session : String → Exec ts.World String Session
  unfolding check_session_time_out update_last_used_time
  current_session token = do
    session ← on_error (check_session_time_out ts token) (λ e. raise e.err_msg)
    update_last_used_time token
    pure session

  -- A refusal that goes to the log of authorizations.
  abbrev pub refuse_logged : {A : Type 0} → String → ℤ → String → String → Handler ts.World A
  refuse_logged token code message error_message =
      on_error (refuse code message error_message []) (λ r. custom_auth_log ts token >> raise r)

  -- The answer to a token that is not valid.
  unfoldable pub not_authorized : {A : Type 0} → String → Error → Handler ts.World A
  unfolding custom_auth_log
  not_authorized token e =
      let (code, message) = get_auth_status_code_and_message e.err_num in
      let error_message = "Unable to authorize session token: " <> e.err_msg in
      if eq_ℤ code status_service_unavailable
      then refuse code message error_message (text ts.in_memory_address ∷ [])
      else refuse_logged token code message error_message

  -- The session of the caller, used now. It is the session as it was before.
  unfoldable pub authorized_session : String → String → Handler ts.World Session
  unfolding check_session_time_out update_last_used_time not_authorized
  authorized_session wording token = do
    current ← on_error (check_session_time_out ts token) (not_authorized token)
    on_error (update_last_used_time token) (λ e. internal (
        "Unable to update last used time of session " <> wording <> " token " <> token <> ": "
        <> e))
    pure current
