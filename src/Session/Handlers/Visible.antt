-- ===== src/Session/Handlers/Visible.antt =====
-- What GetAllActiveSessions of svc-account-session/session/getsession.go shows, and to whom.
use hwmgmt_device_mgr_device.Base.{
  String, ◌≡◌, refl, ap, ◌∙◌, sym, inl, inr, Bool-cases, true, false, not, ◌&&◌, if◌then◌else◌, ◌∷◌,
  [], List, All, length,
}
use hwmgmt_device_mgr_device.Base.Text.{◌<>◌}
use hwmgmt_device_mgr_device.Base.Exec.{Outcome, ok, err, panic, pure, bind-run, ◌>>=◌}
use hwmgmt_device_mgr_device.Errors.{Error}
use hwmgmt_device_mgr_device.Response.{Rpc, view}
use hwmgmt_device_mgr_device.Session.Model.{
  Time, Session, SessionRpc, SessionStore, Sessions, put_session,
}
use hwmgmt_device_mgr_device.Session.Operations.{check_session_time_out}
use hwmgmt_device_mgr_device.Session.TimeOut.{
  Checked, Current, Current-earlier, check_session_time_out-Current,
}
use hwmgmt_device_mgr_device.Session.Views.{View, ListView, refused-ok}
use hwmgmt_device_mgr_device.Session.Handlers.Access.{authorized_session}
use hwmgmt_device_mgr_device.Session.Handlers.Operations.{
  SessionRequest, sessions_uri, check_privilege, all_keys,
}
use hwmgmt_device_mgr_device.Session.Handlers.Listing.{
  collection, visible_sessions, get_all_active_sessions,
}
use hwmgmt_device_mgr_device.Session.Handlers.Caller.{ok-injective, authorized_session-ok}

module _ (ts : SessionRpc) (st : SessionStore ts) where
  -- A member of the list links a session that the caller may configure, and that was valid when the
  -- loop which began in the world `start` checked it.
  pub record Shown (caller : Session) (start : ts.World) (s : Sessions) (member : String)
      : Type 0 where
    pub token : String
    pub session : Session
    pub current : Current ts st token start s session
    pub privilege : check_privilege session caller ≡ true
    pub link : member ≡ (sessions_uri <> "/" <> session.id)

  Shown-earlier :
      (caller : Session) (first : String) (w : ts.World) (members : List String)
      → let w₁ = (check_session_time_out ts first w).1 in
        All (Shown caller w₁ (st.sessions w₁)) members
        → All (Shown caller w (st.sessions w)) members
  Shown-earlier caller first w [] shown = tt
  Shown-earlier caller first w (m ∷ members) (s, shown) = (
    record {
      token = s.token;
      session = s.session;
      current = Current-earlier ts st first s.token w s.current;
      privilege = s.privilege;
      link = s.link;
    },
    Shown-earlier caller first w members shown,
  )

  visible_sessions-Shown :
      (caller : Session) (tokens : List String) (w : ts.World) {members : List String}
      → (visible_sessions ts caller tokens w).0 ≡ ok members
      → All (Shown caller w (st.sessions w)) members
  unfolding visible_sessions
  visible_sessions-Shown caller [] w h = rw (sym (ok-injective h)) tt
  visible_sessions-Shown caller (t ∷ tokens) w {members} h =
      from_outcome
        (λ ms k.
          Shown-earlier caller t w ms (visible_sessions-Shown caller tokens w₁ {members = ms} k))
        (check_session_time_out ts t w).0 refl h
    where
      w₁ : ts.World
      w₁ = (check_session_time_out ts t w).1

      from_outcome :
          ((ms : List String)
            → (visible_sessions ts caller tokens w₁).0 ≡ ok ms
            → All (Shown caller w (st.sessions w)) ms)
          → (o : Outcome Error Session) → (check_session_time_out ts t w).0 ≡ o
          → (let r : Outcome (Rpc View) (List String) × ts.World = elim o [
            | ok x ↦
                (if check_privilege x caller
                    then (visible_sessions ts caller tokens >>= λ ms.
                        pure ((sessions_uri <> "/" <> x.id) ∷ ms))
                    else visible_sessions ts caller tokens)
                  w₁
            | err e ↦ visible_sessions ts caller tokens w₁
            | panic p ↦ (panic p, w₁)
          ] in
              r.0)
            ≡ ok members
          → All (Shown caller w (st.sessions w)) members
      from_outcome later (ok x) e k = elim (Bool-cases (check_privilege x caller)) [
        | inr hidden ↦ later _ (rw hidden at k)
        | inl shown ↦
            let (ms, g, e₁) = bind-run (visible_sessions ts caller tokens) _ w₁ (rw shown at k) in
            rw
              (sym (
                ok-injective (
                  ap (λ (z : Outcome (Rpc View) (List String) × ts.World). z.0) (sym e₁)
                  ∙ (rw shown at k))))
              (
                record {
                  token = t;
                  session = x;
                  current = check_session_time_out-Current ts st t w e;
                  privilege = shown;
                  link = refl;
                },
                later ms g,
              )
      ]
      from_outcome later (err x) e k = later _ k
      from_outcome later (panic p) e k = cc

  -- What GetAllActiveSessions has seen and shown, between two worlds.
  pub record Listed (req : SessionRequest) (r : Rpc View) (w : ts.World) : Type 0 where
    pub caller : Session
    pub current : Checked ts st req.session_token w caller
    pub privilege :
        (not (caller.privileges "ConfigureSelf") && not (caller.privileges "ConfigureUsers"))
        ≡ false
    pub time : Time
    pub list : ListView
    pub body : r.body ≡ view (View.listing list)
    pub count : list.members_count ≡ length list.members
    pub members :
        All
          (Shown caller
            (ts.get_all_session_keys (authorized_session ts "with" req.session_token w).1).1
            (put_session (record caller { last_used_time = time }) (st.sessions w)))
          list.members

  -- A full answer of GetAllActiveSessions means that the session of the caller's token is valid, with
  -- ConfigureSelf or ConfigureUsers. The answer is a list, with its length, and each member is the link
  -- to a session that the caller may configure, stored as the sessions are once the caller's time of use
  -- has been written, and not timed out on the clock that the loop read for it.
  pub get_all_active_sessions-Listed :
      (req : SessionRequest) (w : ts.World) {r : Rpc View}
      → (get_all_active_sessions ts req w).0 ≡ ok r
      → Listed req r w
  unfolding get_all_active_sessions
  get_all_active_sessions-Listed req w {r} h =
      let ask = authorized_session ts "with" req.session_token in
      let (caller, c, e₁) = bind-run ask _ w h in
      let w₁ = (ask w).1 in
      let (current, time, written) = authorized_session-ok ts st "with" req.session_token w c in
      let k₁ = rw e₁ at h in
      elim (Bool-cases
        (not (caller.privileges "ConfigureSelf") && not (caller.privileges "ConfigureUsers"))) [
          | inl denied ↦ cc (rw denied at k₁)
          | inr granted ↦
              let keys = all_keys ts "Unable to get all session keys in delete session: " in
              let k₂ = rw granted at k₁ in
              let (tokens, k, e₂) = bind-run keys _ w₁ k₂ in
              let (_, same) = refused-ok ts.get_all_session_keys _ w₁ k in
              let w₂ = (keys w₁).1 in
              let k₃ = rw e₂ at k₂ in
              let (members, m, e₃) = bind-run (visible_sessions ts caller tokens) _ w₂ k₃ in
              let shown = visible_sessions-Shown caller tokens w₂ m in
              let full = ok-injective (rw e₃ at k₃) in
              record {
                caller = caller;
                current = current;
                privilege = granted;
                time = time;
                list = collection members;
                body = ap Rpc.body (sym full);
                count = refl;
                members =
                    rw same at (rw (ap st.sessions same ∙ st.keys-sessions w₁ ∙ written) at shown);
              }
        ]
