-- ===== src/Session/Handlers/Deleted.antt =====
-- What DeleteSession of svc-account-session/session/delete.go has checked and deleted.
use hwmgmt_device_mgr_device.Base.{
  String, ◌≡◌, refl, ap, ◌∙◌, ◌⊎◌, inl, inr, Bool-cases, true, arith, ◌==◌, eq_iff, if◌then◌else◌,
  ◌∷◌, [], List, Option, some, none,
}
use hwmgmt_device_mgr_device.Base.Exec.{Outcome, ok, err, panic, pure, on_error, bind-run}
use hwmgmt_device_mgr_device.Errors.{Error}
use hwmgmt_device_mgr_device.Response.{Rpc, general_error}
use hwmgmt_device_mgr_device.Response.Messages.{
  status_no_content, insufficient_privilege, status_forbidden,
}
use hwmgmt_device_mgr_device.Session.Model.{
  Time, Session, SessionRpc, SessionStore, Sessions, put_session, drop_session,
}
use hwmgmt_device_mgr_device.Session.Operations.{check_session_time_out}
use hwmgmt_device_mgr_device.Session.TimeOut.{
  Current, Current-earlier, check_session_time_out-Current, check_session_time_out-sessions,
}
use hwmgmt_device_mgr_device.Session.Handlers.Caller.{refuse_logged-fails, update_last_used_time-ok}
use hwmgmt_device_mgr_device.Session.Views.{finish_with-fails, refused-ok, View}
use hwmgmt_device_mgr_device.Session.Handlers.Access.{update_last_used_time}
use hwmgmt_device_mgr_device.Session.Handlers.Operations.{
  SessionRequest, check_privilege, all_keys, find_by_id, delete_found, finish_delete,
  delete_session,
}

module _ (ts : SessionRpc) (st : SessionStore ts) where
  -- Where the loop finds a session, it is stored under its token, has the id, and was valid when the
  -- loop checked it.
  find_by_id-Current :
      (id : String) (tokens : List String) (w : ts.World) {token : String} {y : Session}
      → (find_by_id ts (pure tt) id tokens w).0 ≡ ok (some (token, y))
      → Current ts st token w (st.sessions w) y × (y.id ≡ id)
  unfolding find_by_id
  find_by_id-Current id [] w h = cc
  find_by_id-Current id (t ∷ tokens) w {token} {y} h =
      from_outcome (find_by_id-Current id tokens (check_session_time_out ts t w).1)
        (check_session_time_out ts t w).0 refl h
    where
      w₁ : ts.World
      w₁ = (check_session_time_out ts t w).1

      earlier :
          Current ts st token w₁ (st.sessions w₁) y × (y.id ≡ id)
          → Current ts st token w (st.sessions w) y × (y.id ≡ id)
      earlier (current, asked) = (Current-earlier ts st t token w current, asked)

      from_outcome :
          ((find_by_id ts (pure tt) id tokens w₁).0 ≡ ok (some (token, y))
            → Current ts st token w₁ (st.sessions w₁) y × (y.id ≡ id))
          → (o : Outcome Error Session) → (check_session_time_out ts t w).0 ≡ o
          → (let r : Outcome (Rpc View) (Option (String × Session)) × ts.World = elim o [
            | ok x ↦
                (if x.id == id then pure (some (t, x)) else find_by_id ts (pure tt) id tokens) w₁
            | err e ↦ find_by_id ts (pure tt) id tokens w₁
            | panic p ↦ (panic p, w₁)
          ] in
              r.0)
            ≡ ok (some (token, y))
          → Current ts st token w (st.sessions w) y × (y.id ≡ id)
      from_outcome later (ok x) e k = elim (Bool-cases (x.id == id)) [
        | inr other ↦ earlier (later (rw other at k))
        | inl hit ↦ ground (arith, eq_iff x.id id, check_session_time_out-Current ts st t w {x = x})
      ]
      from_outcome later (err x) e k = earlier (later k)
      from_outcome later (panic p) e k = cc

  find_by_id-sessions :
      (id : String) (tokens : List String) (w : ts.World)
      → st.sessions (find_by_id ts (pure tt) id tokens w).1 ≡ st.sessions w
  unfolding find_by_id
  find_by_id-sessions id [] w = refl
  find_by_id-sessions id (t ∷ tokens) w = ground (
    arith,
    find_by_id-sessions id tokens (check_session_time_out ts t w).1,
    check_session_time_out-sessions ts st t w,
  )

  -- The time of use of the caller's session is written back, unless it is the session that goes.
  pub record Reused (token : String) (s s' : Sessions) : Type 0 where
    pub caller : Session
    pub held : s token ≡ some caller
    pub time : Time
    pub written : s' ≡ put_session (record caller { last_used_time = time }) s

  delete_found-ok :
      (req : SessionRequest) (current y : Session) (w : ts.World) {r : Rpc View}
      → (delete_found ts req current y w).0 ≡ ok r
      → (check_privilege y current ≡ true)
        × (r.status_code ≡ status_no_content)
        × (s : Sessions) × ((s ≡ st.sessions w) ⊎ Reused req.session_token (st.sessions w) s)
        × (st.sessions (delete_found ts req current y w).1 ≡ drop_session y.token s)
  unfolding delete_found
  delete_found-ok req current y w h = elim (Bool-cases (check_privilege y current)) [
    | inr refused ↦ absurd (
        refuse_logged-fails ts req.session_token status_forbidden insufficient_privilege
          "Insufficient privileges" w (rw refused at h))
    | inl allowed ↦ elim (Bool-cases (req.session_token == y.token)) [
      | inl same ↦
          let (_, d, e) =
            bind-run (on_error (ts.delete_stored y) _) _ w (rw (allowed, same) at h) in
          (allowed, ground arith, st.sessions w, inl refl, ground (arith, st.delete-ok y w))
      | inr other ↦
          let (_, u, e) =
            bind-run (on_error (update_last_used_time ts req.session_token) _) _ w
              (rw (allowed, other) at h) in
          let w₁ = (update_last_used_time ts req.session_token w).1 in
          let (caller, held, time, written) =
            update_last_used_time-ok ts st req.session_token w (ground arith) in
          (
            allowed,
            ground arith,
            st.sessions w₁,
            inr (record { caller = caller; held = held; time = time; written = written }),
            ground (arith, st.delete-ok y w₁),
          )
    ]
  ]

  -- What DeleteSession has looked at and deleted, between two worlds.
  pub record Deleted (req : SessionRequest) (r : Rpc View) (w w' : ts.World) : Type 0 where
    pub caller : Session
    pub held : st.sessions w req.session_token ≡ some caller
    pub token : String
    pub target : Session
    pub current :
        Current ts st token
          (ts.get_all_session_keys (ts.get_session req.session_token w).1).1
          (st.sessions w)
          target
    pub asked : target.id ≡ req.session_id
    pub privilege : check_privilege target caller ≡ true
    pub between : Sessions
    pub used : (between ≡ st.sessions w) ⊎ Reused req.session_token (st.sessions w) between
    pub gone : st.sessions w' ≡ drop_session token between
    pub code : r.status_code ≡ status_no_content

  finish_delete-Deleted :
      (req : SessionRequest) (caller : Session) (w w₃ w' : ts.World)
      → st.sessions w req.session_token ≡ some caller
      → st.sessions w₃ ≡ st.sessions w
      → (found : Option (String × Session))
      → ((token : String) (y : Session)
          → found ≡ some (token, y)
          → Current ts st token
              (ts.get_all_session_keys (ts.get_session req.session_token w).1).1
              (st.sessions w)
              y
            × (y.id ≡ req.session_id))
      → {r : Rpc View} → (finish_delete ts req caller found w₃).0 ≡ ok r
      → w' ≡ (finish_delete ts req caller found w₃).1
      → Deleted req r w w'
  finish_delete-Deleted req caller w w₃ w' held kept none good h e =
      absurd (finish_with-fails (general_error _ _ _ _) w₃ h)
  finish_delete-Deleted req caller w w₃ w' held kept (some (token, y)) good h e =
      let (current, asked) = good token y refl in
      let (privilege, code, between, used, gone) = delete_found-ok req caller y w₃ h in
      record {
        caller = caller;
        held = held;
        token = token;
        target = y;
        current = current;
        asked = asked;
        privilege = privilege;
        between = between;
        used = rw kept at used;
        gone = ap st.sessions e ∙ gone ∙ ap (λ k. drop_session k between) current.key;
        code = code;
      }

  -- A full answer of DeleteSession, a 204, means that the session of the caller's token is stored and
  -- may configure the target (its own user with ConfigureSelf, or ConfigureUsers), and that the target
  -- is a stored session with the requested id, which had not timed out on the clock that the search
  -- read for it. The target is gone, and the other sessions are as they were, but for the time of use
  -- of the caller's.
  pub delete_session-Deleted :
      (req : SessionRequest) (w : ts.World) {r : Rpc View}
      → (delete_session ts req w).0 ≡ ok r
      → Deleted req r w (delete_session ts req w).1
  unfolding delete_session
  delete_session-Deleted req w h =
      let ask = on_error (ts.get_session req.session_token) _ in
      let (caller, c, e₁) = bind-run ask _ w h in
      let (got, same₁) = refused-ok (ts.get_session req.session_token) _ w c in
      let w₁ = (ask w).1 in
      let keys = all_keys ts "Unable to get all session keys while deleting session: " in
      let (tokens, k, e₂) = bind-run keys _ w₁ (rw e₁ at h) in
      let (_, same₂) = refused-ok ts.get_all_session_keys _ w₁ k in
      let w₂ = (keys w₁).1 in
      let (found, f, e₃) =
        bind-run (find_by_id ts (pure tt) req.session_id tokens) _ w₂ (rw e₂ at (rw e₁ at h)) in
      let w₃ = (find_by_id ts (pure tt) req.session_id tokens w₂).1 in
      let kept =
        ap st.sessions same₂
        ∙ st.keys-sessions w₁
        ∙ ap st.sessions same₁
        ∙ st.get-sessions req.session_token w in
      let start : w₂ ≡ (ts.get_all_session_keys (ts.get_session req.session_token w).1).1 =
        same₂ ∙ ap (λ v. (ts.get_all_session_keys v).1) same₁ in
      finish_delete-Deleted req caller w w₃ _ (st.get-ok req.session_token w got)
        (find_by_id-sessions req.session_id tokens w₂ ∙ kept) found
        (λ token y e. rw start at (
          rw kept at (
            find_by_id-Current req.session_id tokens w₂ (
              f
              ∙ ap
                  (λ (o : Option (String × Session)).
                    let r : Outcome (Rpc View) (Option (String × Session)) = ok o in r)
                  e))))
        (rw e₃ at (rw e₂ at (rw e₁ at h)))
        (ap (λ (z : Outcome (Rpc View) (Rpc View) × ts.World). z.1) (e₁ ∙ e₂ ∙ e₃))
