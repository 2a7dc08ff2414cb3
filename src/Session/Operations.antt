-- ===== src/Session/Operations.antt =====
-- `Auth` and `CustomAuthLog` of svc-account-session/auth/auth.go, and `CheckSessionTimeOut` of
-- svc-account-session/auth/session.go.
use hwmgmt_device_mgr_device.Base.{
  String, ◌+◌, Bool, true, ◌&&◌, List, [], ◌∷◌, is_empty, ltb, ◌==◌, if◌then◌else◌,
}
use hwmgmt_device_mgr_device.Base.Text.{◌<>◌}
use hwmgmt_device_mgr_device.Base.Exec.{ok, err, panic, Exec, pure, raise, ◌>>=◌, ◌>>◌}
use hwmgmt_device_mgr_device.Response.Messages.{
  success, insufficient_privilege, no_valid_session, status_ok, status_unauthorized,
  status_forbidden,
}
use hwmgmt_device_mgr_device.Session.Model.{Time, Session, AuthRequest, SessionRpc}
use hwmgmt_device_mgr_device.Errors.{ErrType, Error, Status, get_auth_status_code_and_message}

-- The loop over the requested privileges: whether the session has them all.
abbrev pub has_all : Session → List String → Bool
has_all x [] = true
has_all x (p ∷ ps) = x.privileges p && has_all x ps

module _ (ts : SessionRpc) where
  -- Whether the session has been left unused for longer than the time-out, on a clock that shows
  -- `time`.
  abbrev pub timed_out : Session → Time → Bool
  timed_out x time = ltb (x.last_used_time + ts.session_time_out) time

  abbrev pub spawn_clean_up : {E : Type 0} → Exec ts.World E (Unit {0})
  spawn_clean_up w = (ok tt, ts.go_expired_session_clean_up w)

  abbrev pub time_now : {E : Type 0} → Exec ts.World E Time
  time_now w = let (t, w') = ts.now w in (ok t, w')

  -- `errors.PackError` around a failed read keeps the number.
  abbrev pub find_session : String → Exec ts.World Error Session
  find_session token w =
      let (r, w') = ts.get_session token w in
      (
        elim r [
          | ok x ↦ ok x
          | err e ↦ err (record {
            err_num = e.err_num;
            err_msg =
                "error while trying to get session details with the token " <> token <> ": "
                <> e.err_msg;
          })
          | panic p ↦ panic p
        ],
        w',
      )

  unfoldable pub check_session_time_out : String → Exec ts.World Error Session
  check_session_time_out token =
      spawn_clean_up
      >> (if token == ""
          then raise (record {
            err_num = ErrType.invalid_auth_token;
            err_msg = "error: no session token found in header";
          })
          else do
            session ← find_session token
            time ← time_now
            if timed_out session time
                then raise (record {
                  err_num = ErrType.invalid_auth_token;
                  err_msg = "error: invalid token " <> token;
                })
                else pure session)

  -- The log line names the user of the session, which is looked up again.
  unfoldable pub custom_auth_log : {E : Type 0} → String → Exec ts.World E (Unit {0})
  custom_auth_log token w =
      if token == ""
      then (ok tt, w)
      else (let (r, w') = check_session_time_out token w in
          (elim r [ ok _ ↦ ok tt | err _ ↦ ok tt | panic p ↦ panic p ], w'))

  -- A failure that becomes a status, after the log line of an unauthorized call, which names no
  -- token.
  abbrev pub or_status : {A : Type 0} → Exec ts.World Error A → Exec ts.World Status A
  or_status m w =
      let (r, w') = m w in
      (
        elim r [
          | ok a ↦ ok a
          | err e ↦ err (get_auth_status_code_and_message e.err_num)
          | panic p ↦ panic p
        ],
        w',
      )

  -- `Auth` once the session is known: its time of use is written back before the privileges are
  -- looked at.
  unfoldable pub grant : AuthRequest → Session → Exec ts.World Status Status
  unfolding custom_auth_log
  grant req session = do
    time ← time_now
    or_status (ts.update_session (record session { last_used_time = time }))
    (if has_all session req.privileges
        then pure tt
        else (custom_auth_log req.session_token
            >> raise (status_forbidden, insufficient_privilege)))
    custom_auth_log req.session_token
    pure (status_ok, success)

  -- `Auth`. An early return is `err`.
  unfoldable pub auth : AuthRequest → Exec ts.World Status Status
  unfolding check_session_time_out custom_auth_log grant
  auth req =
      spawn_clean_up
      >> (if req.session_token == ""
          then (custom_auth_log "" >> raise (status_unauthorized, no_valid_session))
          else if is_empty req.privileges
          then (custom_auth_log req.session_token >> raise (status_unauthorized, no_valid_session))
          else or_status (check_session_time_out req.session_token) >>= grant req)
