-- ===== src/Session/Tests.antt =====
-- Authorization in a system with one session, of a user who may log in, at time 100.
use hwmgmt_device_mgr_device.Base.{pos, ◌≡◌, refl, true, false, [], ◌∷◌, All, is_empty, some}
use hwmgmt_device_mgr_device.Response.Messages.{success, status_ok}
use hwmgmt_device_mgr_device.Errors.{Status}
use hwmgmt_device_mgr_device.Session.Model.{Session, AuthRequest, put_session}
use hwmgmt_device_mgr_device.Session.Operations.{
  auth, grant, check_session_time_out, custom_auth_log,
}
use hwmgmt_device_mgr_device.Session.TimeOut.{Checked}
use hwmgmt_device_mgr_device.Session.Authorized.{auth-Current}
use hwmgmt_device_mgr_device.Session.Sample.{sample, sample_store, one_session}

abbrev request : AuthRequest
request = record { session_token = "t1"; privileges = "Login" ∷ [] }

abbrev granted : Status
granted = (pos 200, "Base.1.11.0.Success")

auth-Current_example :
    (granted ≡ (status_ok, success))
    × (is_empty request.privileges ≡ false)
    × (x : Session) × (one_session "t1" ≡ some x)
    × Checked sample sample_store "t1" one_session x
    × All (λ p. x.privileges p ≡ true) request.privileges
    × ((auth sample request one_session).1
        ≡ put_session (record x { last_used_time = 100 }) one_session)
unfolding auth grant check_session_time_out custom_auth_log
auth-Current_example = auth-Current sample sample_store request one_session {status = granted} refl
