-- ===== src/Session/TimeOut.antt =====
-- What `CheckSessionTimeOut` of svc-account-session/auth/session.go has checked of a session.
use hwmgmt_device_mgr_device.Base.{
  List, [], ◌∷◌, String, ◌≡◌, ◌∙◌, ◌≢◌, ◌⊎◌, inl, inr, true, false, some, arith, ◌==◌, eq_iff,
  Bool-cases, if◌then◌else◌,
}
use hwmgmt_device_mgr_device.Base.Text.{◌<>◌}
use hwmgmt_device_mgr_device.Base.Exec.{Outcome, ok, err, panic, pure, raise, bind-ok, bind-world}
use hwmgmt_device_mgr_device.Errors.{ErrType, Error}
use hwmgmt_device_mgr_device.Session.Model.{Session, SessionRpc, SessionStore, Sessions}
use hwmgmt_device_mgr_device.Session.Operations.{timed_out, find_session, check_session_time_out}

ok-injective : {a b : Session} → (let r : Outcome Error Session = ok a in r) ≡ ok b → a ≡ b
ok-injective h = ground arith

module _ (ts : SessionRpc) (st : SessionStore ts) where
  find_session-ok :
      (token : String) (w : ts.World) {x : Session}
      → (find_session ts token w).0 ≡ ok x
      → (ts.get_session token w).0 ≡ ok x
  find_session-ok token w {x} h = from_outcome (ts.get_session token w).0 h
    where
      from_outcome :
          (o : Outcome Error Session)
          → (let r : Outcome Error Session = elim o [
            | ok y ↦ ok y
            | err e ↦ err (record {
              err_num = e.err_num;
              err_msg =
                  "error while trying to get session details with the token " <> token <> ": "
                  <> e.err_msg;
            })
            | panic p ↦ panic p
          ] in
              r)
            ≡ ok x
          → o ≡ ok x
      from_outcome (ok y) k = k
      from_outcome (err y) k = cc
      from_outcome (panic y) k = cc

  -- The world in which CheckSessionTimeOut reads the clock.
  abbrev pub at_clock : String → ts.World → ts.World
  at_clock token w = (ts.get_session token (ts.go_expired_session_clean_up w)).1

  -- The session stands in the database under the token, and the clock that the check has read shows
  -- that it was used recently enough.
  pub record Checked (token : String) (w : ts.World) (x : Session) : Type 0 where
    pub given : token ≢ ""
    pub stored : st.sessions w token ≡ some x
    pub key : x.token ≡ token
    pub in_time : timed_out ts x (ts.now (at_clock token w)).0 ≡ false

  -- The world after a loop has checked these tokens.
  abbrev pub after_checks : List String → ts.World → ts.World
  after_checks [] w = w
  after_checks (token ∷ tokens) w = after_checks tokens (check_session_time_out ts token w).1

  -- The session stands in the database under the token, and the clock showed that it was used recently
  -- enough when a loop that began in the world `start` checked it, after the tokens before.
  pub record Current (token : String) (start : ts.World) (s : Sessions) (x : Session) : Type 0 where
    pub given : token ≢ ""
    pub stored : s token ≡ some x
    pub key : x.token ≡ token
    pub before : List String
    pub in_time : timed_out ts x (ts.now (at_clock token (after_checks before start))).0 ≡ false

  pub check_session_time_out-sessions :
      (token : String) (w : ts.World)
      → st.sessions (check_session_time_out ts token w).1 ≡ st.sessions w
  unfolding check_session_time_out
  check_session_time_out-sessions token w = elim (Bool-cases (token == "")) [
    | inl hit ↦ rw hit (st.spawn-sessions w)
    | inr miss ↦ rw miss (
        bind-world (find_session ts token) _ w₀ Same (read) (λ x _.
          elim (Bool-cases (timed_out ts x (ts.now (ts.get_session token w₀).1).0)) [
            | inl late ↦ rw late (st.now-sessions _ ∙ read)
            | inr early ↦ rw early (st.now-sessions _ ∙ read)
          ]))
  ]
    where
      w₀ : ts.World
      w₀ = ts.go_expired_session_clean_up w

      Same : ts.World → Type 0
      Same w' = st.sessions w' ≡ st.sessions w

      read : st.sessions (ts.get_session token w₀).1 ≡ st.sessions w
      read = st.get-sessions token w₀ ∙ st.spawn-sessions w

  pub check_session_time_out-Checked :
      (token : String) (w : ts.World) {x : Session}
      → (check_session_time_out ts token w).0 ≡ ok x
      → Checked token w x
  unfolding check_session_time_out
  check_session_time_out-Checked token w {x} h = elim (Bool-cases (token == "")) [
    | inl hit ↦ cc (rw (hit, check_session_time_out) at h)
    | inr miss ↦
        let w₀ = ts.go_expired_session_clean_up w in
        let (y, g, k) =
          bind-ok (find_session ts token) _ w₀ (rw (miss, check_session_time_out) at h) in
        let got = find_session-ok token w₀ g in
        found miss y got (Bool-cases (timed_out ts y (ts.now (ts.get_session token w₀).1).0)) k
  ]
    where
      w₁ : ts.World
      w₁ = (ts.get_session token (ts.go_expired_session_clean_up w)).1

      found :
          (token == "") ≡ false
          → (y : Session) → (ts.get_session token (ts.go_expired_session_clean_up w)).0 ≡ ok y
          → (timed_out ts y (ts.now w₁).0 ≡ true) ⊎ (timed_out ts y (ts.now w₁).0 ≡ false)
          → ((if timed_out ts y (ts.now w₁).0
                then raise {E = Error} (record {
                  err_num = ErrType.invalid_auth_token;
                  err_msg = "error: invalid token " <> token;
                })
                else pure y)
              (ts.now w₁).1).0
            ≡ ok x
          → Checked token w x
      found miss y got (inl late) k = cc (rw late at k)
      found miss y got (inr early) k =
          let same : y ≡ x = ok-injective (rw early at k) in
          let w₀ = ts.go_expired_session_clean_up w in
          let current : Checked token w y = record {
            given = ground (arith, eq_iff token "");
            stored = rw (st.spawn-sessions w) at (st.get-ok token w₀ got);
            key = st.get-token token w₀ got;
            in_time = early;
          } in
          rw same at current

  pub check_session_time_out-Current :
      (token : String) (w : ts.World) {x : Session}
      → (check_session_time_out ts token w).0 ≡ ok x
      → Current token w (st.sessions w) x
  check_session_time_out-Current token w h =
      let c = check_session_time_out-Checked token w h in
      record { given = c.given; stored = c.stored; key = c.key; before = []; in_time = c.in_time }

  -- What a later round of the loop has checked, seen from the start of the round before.
  pub Current-earlier :
      (first token : String) (w : ts.World) {x : Session}
      → let w₁ = (check_session_time_out ts first w).1 in
        Current token w₁ (st.sessions w₁) x → Current token w (st.sessions w) x
  Current-earlier first token w c = record {
    given = c.given;
    stored = rw (check_session_time_out-sessions first w) at c.stored;
    key = c.key;
    before = first ∷ c.before;
    in_time = c.in_time;
  }
