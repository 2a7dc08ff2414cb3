-- ===== src/Task/Handlers/Access.antt =====
-- How the task handlers answer early, and `validateAndAutherize` of svc-task/thandle/thandle.go.
use hwmgmt_device_mgr_device.Base.{String, ℤ, Bool, List, [], ◌∷◌, eq_ℤ, ◌==◌, if◌then◌else◌}
use hwmgmt_device_mgr_device.Base.Exec.{Outcome, ok, err, panic, Exec, pure, ◌>>=◌, ◌>>◌}
use hwmgmt_device_mgr_device.Response.{Rpc, text, Total, general_error}
use hwmgmt_device_mgr_device.Response.Messages.{
  status_ok, status_unauthorized, status_not_found, no_valid_session, resource_not_found,
}
use hwmgmt_device_mgr_device.Task.Model.{Task, GetTaskRequest}
use hwmgmt_device_mgr_device.Task.Views.{View}
use hwmgmt_device_mgr_device.Task.Service.{TasksRpc}

-- `StatusCode == http.StatusOK`
unfoldable pub is_ok : ℤ → Bool
is_ok code = eq_ℤ code status_ok

-- A handler: the error half of its value is the response of an early return, since every task RPC
-- returns a nil error.
abbrev pub Handler : Type 0 → Type 0 → Type 0
Handler W A = Exec W (Rpc View) A

-- What the RPC answers: a response, or a panic of the handler.
unfoldable pub answer : {W : Type 0} → Handler W (Rpc View) → W → Outcome ⊥ (Rpc View) × W
answer m w = let (r, w') = m w in (elim r [ ok v ↦ ok v | err v ↦ ok v | panic p ↦ panic p ], w')

-- `fillProtoResponse` with the response of an error helper, and the return.
abbrev pub fail : {W A : Type 0} → Total (Rpc View) → Handler W A
fail t w = (elim t [ ok v ↦ err v | err e ↦ absurd e | panic p ↦ panic p ], w)

-- A Go error that becomes a response.
abbrev pub or_fail : {W A : Type 0} → Exec W String A → (String → Total (Rpc View)) → Handler W A
or_fail m f w =
    let (r, w') = m w in
    (
      elim r [
        | ok a ↦ ok a
        | err e ↦ elim (f e) [ ok v ↦ err v | err x ↦ absurd x | panic p ↦ panic p ]
        | panic p ↦ panic p
      ],
      w',
    )

-- `rsp.Header[k] = v`
abbrev pub set_header : String → String → List (String × String) → List (String × String)
set_header k v [] = (k, v) ∷ []
set_header k v ((j, x) ∷ h) = if j == k then (k, v) ∷ h else (j, x) ∷ set_header k v h

abbrev pub auth_error : String
auth_error = "error while trying to authenticate session"

module _ (ts : TasksRpc) where
  -- The guard `if authResp.StatusCode != http.StatusOK`.
  abbrev pub authorize : String → List String → Handler ts.World (Unit {0})
  authorize token privileges w =
      let (r, w') = ts.authentication_rpc token privileges w in
      (if is_ok r.status_code then ok tt else err r, w')

  abbrev pub session_user : String → Handler ts.World String
  session_user token =
      or_fail (ts.get_session_user_name_rpc token)
        (λ _. general_error status_unauthorized no_valid_session auth_error [])

  abbrev pub find_task : String → Handler ts.World Task
  find_task id =
      or_fail (ts.get_task_status_model id)
        (λ e. general_error status_not_found resource_not_found e (text "Task" ∷ text id ∷ []))

  -- Another user's task is shown to an administrator only.
  abbrev pub owner_or_admin : String → String → Task → Handler ts.World Task
  owner_or_admin token user t =
      if user == t.user_name then pure t else (authorize token ("ConfigureUsers" ∷ []) >> pure t)

  unfoldable pub access : String → String → Handler ts.World Task
  unfolding general_error
  access token id = do
    authorize token ("Login" ∷ [])
    user ← session_user token
    t ← find_task id
    owner_or_admin token user t

  unfoldable pub validate_and_autherize : GetTaskRequest → Handler ts.World Task
  unfolding access
  validate_and_autherize req = access req.session_token req.task_id

  -- `constructCommonResponseHeader`
  abbrev pub common_header : Handler ts.World (List (String × String))
  common_header w = let (t, w') = ts.now w in (ok (("Date", ts.http_date t) ∷ []), w')
