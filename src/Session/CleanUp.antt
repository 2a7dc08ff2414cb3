-- ===== src/Session/CleanUp.antt =====
-- `expiredSessionCleanUp` and `CheckSessionCreationCredentials` of svc-account-session/auth/session.go.
-- The lock of the clean-up keeps two of them from running at once; it is not modelled.
use hwmgmt_device_mgr_device.Base.{String, ◌+◌, List, [], ◌∷◌, ltb, ◌==◌, ◌||◌, if◌then◌else◌, not}
use hwmgmt_device_mgr_device.Base.Text.{◌<>◌}
use hwmgmt_device_mgr_device.Base.Exec.{ok, err, panic, Exec, pure, raise, on_error, ◌>>=◌, ◌>>◌}
use hwmgmt_device_mgr_device.Errors.{ErrType, Error, pack_error}
use hwmgmt_device_mgr_device.Session.Model.{Session, User, SessionRpc}
use hwmgmt_device_mgr_device.Session.Operations.{timed_out, time_now, spawn_clean_up}

module _ (ts : SessionRpc) where
  -- The end of the clean-up of one session: a failed deletion is logged.
  abbrev pub delete_expired : Session → Exec ts.World Error (Unit {0})
  delete_expired x = do
    time ← time_now ts
    if timed_out ts x time then on_error (ts.delete_stored x) (λ e. pure tt) else pure tt

  -- One round of the loop: what cannot be read is passed over.
  unfoldable pub clean_up_one : String → Exec ts.World Error (Unit {0})
  clean_up_one token w =
      let (r, w') = ts.get_session token w in
      elim r [ ok x ↦ delete_expired x w' | err e ↦ (ok tt, w') | panic p ↦ (panic p, w') ]

  unfoldable pub clean_up_all : List String → Exec ts.World Error (Unit {0})
  clean_up_all [] = pure tt
  clean_up_all (token ∷ tokens) = clean_up_one token >> clean_up_all tokens

  abbrev pub mark_clean : Exec ts.World Error (Unit {0})
  mark_clean w = let (time, w') = ts.now w in (ok tt, ts.set_last_clean_up time w')

  unfoldable pub expired_session_clean_up : Exec ts.World Error (Unit {0})
  expired_session_clean_up w =
      (do
        time ← time_now ts
        if ltb (ts.last_clean_up w + ts.clean_up_time) time
            then (do tokens ← ts.get_all_session_keys; clean_up_all tokens; mark_clean)
            else pure tt)
        w

  abbrev invalid_credentials : String → Error
  invalid_credentials detail =
      pack_error ErrType.undefined_error_type ("error: Invalid username or password " <> detail)

  -- The user of the given name, whose stored password is the hash of the given one.
  unfoldable pub check_session_creation_credentials : String → String → Exec ts.World Error User
  check_session_creation_credentials user_name password =
      spawn_clean_up ts
      >> (if (user_name == "") || (password == "") then raise (invalid_credentials "") else do
        user ← on_error (ts.get_user_details user_name) (λ e.
            raise (pack_error e.err_num ("error: Invalid username or password :" <> e.err_msg)))
        if not (user.password == ts.hashed password)
            then raise (invalid_credentials "")
            else pure user)
