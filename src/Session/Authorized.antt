-- ===== src/Session/Authorized.antt =====
-- What `Auth` of svc-account-session/auth/auth.go has checked when it answers with 200.
use hwmgmt_device_mgr_device.Base.{
  String, ◌≡◌, refl, ap, ◌∙◌, ◌≢◌, inl, inr, Bool, true, false, some, List, [], ◌∷◌, All, is_empty,
  arith, ◌==◌, Bool-cases, if◌then◌else◌,
}
use hwmgmt_device_mgr_device.Base.Exec.{
  Outcome, ok, err, panic, Exec, pure, raise, bind-ok, ◌>>=◌, ◌>>◌,
}
use hwmgmt_device_mgr_device.Response.Messages.{
  success, status_ok, status_unauthorized, status_forbidden, no_valid_session,
  insufficient_privilege,
}
use hwmgmt_device_mgr_device.Errors.{Error, Status, get_auth_status_code_and_message}
use hwmgmt_device_mgr_device.Session.Model.{
  Session, AuthRequest, SessionRpc, SessionStore, put_session,
}
use hwmgmt_device_mgr_device.Session.Operations.{
  has_all, check_session_time_out, custom_auth_log, or_status, grant, auth,
}
use hwmgmt_device_mgr_device.Session.TimeOut.{
  Checked, check_session_time_out-Checked, check_session_time_out-sessions,
}

has_all-All :
    (x : Session) (ps : List String) → has_all x ps ≡ true → All (λ p. x.privileges p ≡ true) ps
has_all-All x [] h = tt
has_all-All x (p ∷ ps) h = (ground arith, has_all-All x ps (ground arith))

module _ (ts : SessionRpc) (st : SessionStore ts) where
  or_status-ok :
      {A : Type 0} (m : Exec ts.World Error A) (w : ts.World) {a : A}
      → (or_status ts m w).0 ≡ ok a
      → (m w).0 ≡ ok a
  or_status-ok {A} m w {a} h = from_outcome (m w).0 h
    where
      from_outcome :
          (o : Outcome Error A)
          → (let r : Outcome Status A = elim o [
            | ok x ↦ ok x
            | err e ↦ err (get_auth_status_code_and_message e.err_num)
            | panic p ↦ panic p
          ] in
              r)
            ≡ ok a
          → o ≡ ok a
      from_outcome (ok x) k = ground arith
      from_outcome (err x) k = cc
      from_outcome (panic x) k = cc

  custom_auth_log-sessions :
      (token : String) (w : ts.World)
      → st.sessions (custom_auth_log ts {E = Status} token w).1 ≡ st.sessions w
  unfolding custom_auth_log
  custom_auth_log-sessions token w = elim (Bool-cases (token == "")) [
    | inl hit ↦ rw hit
    | inr miss ↦ rw miss (check_session_time_out-sessions ts st token w)
  ]

  grant-ok :
      (req : AuthRequest) (x : Session) (w : ts.World) {status : Status}
      → (grant ts req x w).0 ≡ ok status
      → (status ≡ (status_ok, success))
        × (has_all x req.privileges ≡ true)
        × (st.sessions (grant ts req x w).1
            ≡ put_session (record x { last_used_time = (ts.now w).0 }) (st.sessions w))
  unfolding grant
  grant-ok req x w {status} h =
      let w₁ = (ts.now w).1 in
      let x' = record x { last_used_time = (ts.now w).0 } in
      let (_, u, k) = bind-ok (or_status ts (ts.update_session x')) _ w₁ h in
      let w₂ = (ts.update_session x' w₁).1 in
      let (_, g, k₁) = bind-ok (if has_all x req.privileges then pure tt else refuse) _ w₂ k in
      let all = granted (has_all x req.privileges) w₂ g in
      let (_, l, r) = bind-ok (custom_auth_log ts req.session_token) _ w₂ (rw all at k₁) in
      (
        ground arith,
        all,
        rw (u, all, l)
            (custom_auth_log-sessions req.session_token w₂
              ∙ st.update-ok x' w₁ (or_status-ok (ts.update_session x') w₁ u)
              ∙ ap (put_session x') (st.now-sessions w)),
      )
    where
      refuse : Exec ts.World Status (Unit {0})
      refuse =
          custom_auth_log ts req.session_token >> raise (status_forbidden, insufficient_privilege)

      granted :
          (b : Bool) (v : ts.World) {a : Unit {0}}
          → ((if b then pure tt else refuse) v).0 ≡ ok a
          → b ≡ true
      granted true v k = refl
      granted false v k = let (_, _, e) = bind-ok (custom_auth_log ts req.session_token) _ v k in cc

  -- What `Auth` goes on with when a token and a privilege are given.
  abbrev known : AuthRequest → Exec ts.World Status Status
  known req = or_status ts (check_session_time_out ts req.session_token) >>= grant ts req

  abbrev unauthorized : String → Exec ts.World Status Status
  unauthorized token = custom_auth_log ts token >> raise (status_unauthorized, no_valid_session)

  unauthorized-lem :
      (token : String) (w : ts.World) {status : Status} → (unauthorized token w).0 ≢ ok status
  unauthorized-lem token w h =
      let (_, _, e) = bind-ok (custom_auth_log ts {E = Status} token) _ w h in cc

  auth-known :
      (req : AuthRequest) (w : ts.World) {status : Status}
      → (auth ts req w).0 ≡ ok status
      → (is_empty req.privileges ≡ false)
        × (auth ts req w ≡ known req (ts.go_expired_session_clean_up w))
  unfolding auth
  auth-known req w {status} h = from_tests (req.session_token == "") (is_empty req.privileges) h
    where
      tests : Bool → Bool → Outcome Status Status × ts.World
      tests a b =
          (if a then unauthorized "" else if b then unauthorized req.session_token else known req)
            (ts.go_expired_session_clean_up w)

      from_tests :
          (a b : Bool)
          → (tests a b).0 ≡ ok status
          → (b ≡ false) × (tests a b ≡ known req (ts.go_expired_session_clean_up w))
      from_tests true b k = absurd (unauthorized-lem "" (ts.go_expired_session_clean_up w) k)
      from_tests false true k =
          absurd (unauthorized-lem req.session_token (ts.go_expired_session_clean_up w) k)
      from_tests false false k = (refl, refl)

  -- A call that is authorized is answered with 200 and Success. It has shown a token whose session was
  -- stored, and had not timed out on the clock that the check of the token read; it has asked for at
  -- least one privilege, and for none that the session lacks. Of the stored sessions, the session's
  -- time of last use alone has been changed, to what the clock showed after the check.
  pub auth-Current :
      (req : AuthRequest) (w : ts.World) {status : Status}
      → (auth ts req w).0 ≡ ok status
      → let w₀ = ts.go_expired_session_clean_up w in
        let time = (ts.now (check_session_time_out ts req.session_token w₀).1).0 in
        (status ≡ (status_ok, success))
        × (is_empty req.privileges ≡ false)
        × (x : Session) × (st.sessions w req.session_token ≡ some x)
        × Checked ts st req.session_token w₀ x
        × All (λ p. x.privileges p ≡ true) req.privileges
        × (st.sessions (auth ts req w).1
            ≡ put_session (record x { last_used_time = time }) (st.sessions w))
  auth-Current req w {status} h =
      let (asked, e) = auth-known req w h in
      let w₀ = ts.go_expired_session_clean_up w in
      let check = check_session_time_out ts req.session_token in
      let (x, c, k) = bind-ok (or_status ts check) (grant ts req) w₀ (rw e at h) in
      let w₁ = (check w₀).1 in
      let (answer, all, stored) = grant-ok req x w₁ k in
      let checked =
        check_session_time_out-Checked ts st req.session_token w₀ (or_status-ok check w₀ c) in
      (
        answer,
        asked,
        x,
        rw (st.spawn-sessions w) at checked.stored,
        checked,
        has_all-All x req.privileges all,
        rw (e, c)
            (stored
              ∙ ap (put_session (record x { last_used_time = (ts.now w₁).0 })) (
                  check_session_time_out-sessions ts st req.session_token w₀
                  ∙ st.spawn-sessions w)),
      )
