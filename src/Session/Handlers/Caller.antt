-- ===== src/Session/Handlers/Caller.antt =====
-- What the checks of svc-account-session that come before a handler's own work have seen: the caller's
-- session, and its time of use.
use hwmgmt_device_mgr_device.Base.{
  String, ℤ, ◌≡◌, refl, ap, ◌∙◌, sym, inl, inr, Bool-cases, arith, [], some, ◌≢◌, eq_ℤ,
}
use hwmgmt_device_mgr_device.Base.Exec.{
  Outcome, ok, err, panic, on_error, bind-run, bind-elim, on_error-elim, or_else,
}
use hwmgmt_device_mgr_device.Errors.{Error, get_auth_status_code_and_message}
use hwmgmt_device_mgr_device.Response.{Rpc, general_error}
use hwmgmt_device_mgr_device.Response.Messages.{status_service_unavailable}
use hwmgmt_device_mgr_device.Session.Model.{Time, Session, SessionRpc, SessionStore, put_session}
use hwmgmt_device_mgr_device.Session.Operations.{check_session_time_out, custom_auth_log}
use hwmgmt_device_mgr_device.Session.TimeOut.{
  Checked, check_session_time_out-Checked, check_session_time_out-sessions,
}
use hwmgmt_device_mgr_device.Session.Views.{refuse, finish_with-fails, refused-ok, View}
use hwmgmt_device_mgr_device.Session.Handlers.Access.{
  update_last_used_time, refuse_logged, not_authorized, authorized_session,
}

pub ok-injective : {E A : Type 0} {a b : A} → (let r : Outcome E A = ok a in r) ≡ ok b → a ≡ b
ok-injective h = ground arith

some-injective : {A : Type 0} {a b : A} → some a ≡ some b → a ≡ b
some-injective h = ground arith

module _ (ts : SessionRpc) where
  pub refuse_logged-fails :
      {A : Type 0} (token : String) (code : ℤ) (message error_message : String) (w : ts.World)
      {a : A}
      → (refuse_logged ts token code message error_message w).0 ≢ ok a
  refuse_logged-fails token code message error_message w {a} h =
      on_error-elim (refuse code message error_message []) _ w (λ z. z.0 ≢ ok a)
        (λ b e _. absurd (finish_with-fails (general_error code message error_message []) w e))
        (λ v _.
          bind-elim (custom_auth_log ts token) _ w (λ z. z.0 ≢ ok a) (λ _ _ k. cc) (λ _ _ k. cc)
            (λ _ _ k. cc))
        (λ p k. cc) h

  not_authorized-fails :
      {A : Type 0} (token : String) (e : Error) (w : ts.World) {a : A}
      → (not_authorized ts token e w).0 ≢ ok a
  unfolding not_authorized
  not_authorized-fails token e w h =
      let (code, message) = get_auth_status_code_and_message e.err_num in
      elim (Bool-cases (eq_ℤ code status_service_unavailable)) [
        | inl away ↦ finish_with-fails (general_error _ _ _ _) w (rw away at h)
        | inr refused ↦ refuse_logged-fails token _ _ _ w (rw refused at h)
      ]

module _ (ts : SessionRpc) (st : SessionStore ts) where
  pub update_last_used_time-ok :
      (token : String) (w : ts.World)
      → (update_last_used_time ts token w).0 ≡ ok tt
      → (x : Session) × (st.sessions w token ≡ some x)
        × (time : Time) × (st.sessions (update_last_used_time ts token w).1
            ≡ put_session (record x { last_used_time = time }) (st.sessions w))
  unfolding update_last_used_time
  update_last_used_time-ok token w h =
      let (x, got, e) = bind-run (on_error (ts.get_session token) _) _ w h in
      let w₁ = (ts.get_session token w).1 in
      let w₂ = (ts.now w₁).1 in
      let y : Session = record x { last_used_time = (ts.now w₁).0 } in
      (
        x,
        st.get-ok token w (ground arith),
        (ts.now w₁).0,
        ground (arith, st.get-sessions token w, st.now-sessions w₁, st.update-ok y w₂),
      )

  pub authorized_session-ok :
      (wording token : String) (w : ts.World) {x : Session}
      → (authorized_session ts wording token w).0 ≡ ok x
      → Checked ts st token w x
        × (time : Time) × (st.sessions (authorized_session ts wording token w).1
            ≡ put_session (record x { last_used_time = time }) (st.sessions w))
  unfolding authorized_session
  authorized_session-ok wording token w {x} h =
      let check = on_error (check_session_time_out ts token) (not_authorized ts token) in
      let (y, c, e₁) = bind-run check _ w h in
      let w₁ = (check w).1 in
      let (got, same) = allowed (check_session_time_out ts token w).0 refl c in
      let current = check_session_time_out-Checked ts st token w got in
      let kept = ap st.sessions same ∙ check_session_time_out-sessions ts st token w in
      let touch = on_error (update_last_used_time ts token) _ in
      let (_, u, e₂) = bind-run touch _ w₁ (rw e₁ at h) in
      let (touched, same₂) = refused-ok (update_last_used_time ts token) _ w₁ u in
      let (z, held, time, written) = update_last_used_time-ok token w₁ touched in
      let whole = e₁ ∙ e₂ in
      let y_is_x : y ≡ x =
        ok-injective (ap (λ (o : Outcome (Rpc View) Session × ts.World). o.0) (sym whole) ∙ h) in
      let z_is_x : z ≡ x =
        some-injective (sym held ∙ ap (λ s. s token) kept ∙ current.stored) ∙ y_is_x in
      (
        rw y_is_x at current,
        time,
        ap (λ (o : Outcome (Rpc View) Session × ts.World). st.sessions o.1) whole
            ∙ ap st.sessions same₂
            ∙ written
            ∙ ap
                (λ (v : Session). put_session (record v { last_used_time = time }) (st.sessions w₁))
                z_is_x
            ∙ ap (put_session (record x { last_used_time = time })) kept,
      )
    where
      allowed :
          {y : Session} (o : Outcome Error Session)
          → (check_session_time_out ts token w).0 ≡ o
          → (or_else o (not_authorized ts token) (check_session_time_out ts token w).1).0 ≡ ok y
          → ((check_session_time_out ts token w).0 ≡ ok y)
            × ((or_else o (not_authorized ts token) (check_session_time_out ts token w).1).1
                ≡ (check_session_time_out ts token w).1)
      allowed (ok z) e k = (ground arith, refl)
      allowed (err z) e k = absurd (not_authorized-fails ts token z _ k)
      allowed (panic z) e k = cc
