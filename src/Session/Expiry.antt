-- ===== src/Session/Expiry.antt =====
-- What `expiredSessionCleanUp` of svc-account-session/auth/session.go deletes.
use hwmgmt_device_mgr_device.Base.{
  String, ◌≡◌, refl, ap, ◌∙◌, sym, ◌⊎◌, inl, inr, Bool-cases, true, List, [], ◌∷◌, some, none,
  arith, ◌==◌, eq_iff, ltb, ◌+◌, ◌<◌, ◌≤◌,
}
use hwmgmt_device_mgr_device.Base.Exec.{Outcome, ok, err, panic, bind-world}
use hwmgmt_device_mgr_device.Errors.{Error}
use hwmgmt_device_mgr_device.Session.Model.{
  Session, SessionRpc, SessionStore, Sessions, Time, drop_session,
}
use hwmgmt_device_mgr_device.Session.Operations.{timed_out}
use hwmgmt_device_mgr_device.Session.CleanUp.{
  delete_expired, clean_up_one, clean_up_all, expired_session_clean_up,
}
use hwmgmt_device_mgr_device.Session.Clock.{
  clock, SteadyClock, attempted, delete_expired-IsForward, clean_up_all-IsForward,
  mark_clean-IsForward,
}

module _ (ts : SessionRpc) (st : SessionStore ts) (now : Time) where
  -- A stored session that has been left unused for longer than the time-out.
  pub record Expired (token : String) (s : Sessions) : Type 0 where
    pub session : Session
    pub stored : s token ≡ some session
    pub late : session.last_used_time + ts.session_time_out < now

  -- What may have become of the session of a token.
  abbrev pub Fate : String → Sessions → Sessions → Type 0
  Fate token s s' = (s' token ≡ s token) ⊎ (Expired token s × (s' token ≡ none))

  Fate-trans :
      (token : String) (s s' s'' : Sessions)
      → Fate token s s'
      → Fate token s' s''
      → Fate token s s''
  Fate-trans token s s' s'' (inl e) (inl e') = inl (e' ∙ e)
  Fate-trans token s s' s'' (inl e) (inr (x, e')) =
      inr (record { session = x.session; stored = sym e ∙ x.stored; late = x.late }, e')
  Fate-trans token s s' s'' (inr (x, e)) (inl e') = inr (x, e' ∙ e)
  Fate-trans token s s' s'' (inr (x, e)) (inr (y, e')) = inr (x, e')

  Fate-same : (token : String) {s s' : Sessions} → s' ≡ s → Fate token s s'
  Fate-same token e = inl (ap (λ s. s token) e)

  Fate-after :
      (token : String) {s s' : Sessions} (s'' : Sessions)
      → s' ≡ s
      → Fate token s' s''
      → Fate token s s''
  Fate-after token {s} {s'} s'' e f = Fate-trans token s s' s'' (Fate-same token e) f

  Fate-before :
      (token : String) (s : Sessions) {s' s'' : Sessions}
      → Fate token s s'
      → s'' ≡ s'
      → Fate token s s''
  Fate-before token s {s'} {s''} f e = Fate-trans token s s' s'' f (Fate-same token e)

  dropped-Fate :
      (x : Session) (time : Time) (s : Sessions) (token : String)
      → s x.token ≡ some x
      → timed_out ts x time ≡ true
      → time ≤ now
      → Fate token s (drop_session x.token s)
  dropped-Fate x time s token h late past = elim (Bool-cases (x.token == token)) [
    | inl hit ↦ inr (
      record { session = x; stored = ground (arith, eq_iff x.token token); late = ground arith },
      rw hit refl,
    )
    | inr other ↦ inl (rw other refl)
  ]

  module _ (steady : SteadyClock ts) where
    delete_expired-Fate :
        (x : Session) (w : ts.World) (token : String)
        → st.sessions w x.token ≡ some x
        → clock ts (delete_expired ts x w).1 ≤ now
        → Fate token (st.sessions w) (st.sessions (delete_expired ts x w).1)
    delete_expired-Fate x w token h past =
        let begun = delete_expired-IsForward ts steady x w in
        let past₁ : clock ts w ≤ now = omega arith in
        elim (Bool-cases (timed_out ts x (ts.now w).0)) [
          | inr fresh ↦ inl (rw fresh (ap (λ s. s token) (st.now-sessions w)))
          | inl late ↦
              rw (late, attempted ts x (ts.now w).1)
                (elim (st.delete-any x (ts.now w).1) [
                  | inl e ↦ Fate-same token (e ∙ st.now-sessions w)
                  | inr e ↦
                      Fate-before token (st.sessions w)
                        (dropped-Fate x (clock ts w) (st.sessions w) token h late past₁)
                        (e ∙ ap (drop_session x.token) (st.now-sessions w))
                ])
        ]

    clean_up_one-Fate :
        (key : String) (w : ts.World) (token : String)
        → clock ts (clean_up_one ts key w).1 ≤ now
        → Fate token (st.sessions w) (st.sessions (clean_up_one ts key w).1)
    unfolding clean_up_one
    clean_up_one-Fate key w token past = from_outcome (ts.get_session key w).0 refl past
      where
        w₁ : ts.World
        w₁ = (ts.get_session key w).1

        kept : st.sessions w₁ ≡ st.sessions w
        kept = st.get-sessions key w

        after : Outcome Error Session → Outcome Error (Unit {0}) × ts.World
        after o = elim o [
          | ok x ↦ delete_expired ts x w₁
          | err e ↦ (ok tt, w₁)
          | panic p ↦ (panic p, w₁)
        ]

        from_outcome :
            (o : Outcome Error Session)
            → (ts.get_session key w).0 ≡ o
            → clock ts (after o).1 ≤ now
            → Fate token (st.sessions w) (st.sessions (after o).1)
        from_outcome (ok x) e late =
            Fate-after token (st.sessions (delete_expired ts x w₁).1) kept (
              delete_expired-Fate x w₁ token
                (ground (arith, st.get-ok key w e, st.get-token key w e, kept)) late)
        from_outcome (err x) e late = Fate-same token kept
        from_outcome (panic p) e late = Fate-same token kept

    clean_up_all-Fate :
        (keys : List String) (w : ts.World) (token : String)
        → clock ts (clean_up_all ts keys w).1 ≤ now
        → Fate token (st.sessions w) (st.sessions (clean_up_all ts keys w).1)
    unfolding clean_up_all
    clean_up_all-Fate [] w token = λ _. inl refl
    clean_up_all-Fate (key ∷ keys) w token =
        bind-world (clean_up_one ts key) (λ _. clean_up_all ts keys) w
          (λ w'. clock ts w' ≤ now → Fate token (st.sessions w) (st.sessions w'))
          (clean_up_one-Fate key w token)
          (λ _ _ past.
            let w₁ = (clean_up_one ts key w).1 in
            let later = clean_up_all-IsForward ts steady keys w₁ in
            let past₁ : clock ts w₁ ≤ now = omega arith in
            Fate-trans token _ _ (st.sessions (clean_up_all ts keys w₁).1)
              (clean_up_one-Fate key w token past₁) (clean_up_all-Fate keys w₁ token past))

    clean_up-Fate :
        (w : ts.World) (token : String)
        → clock ts (expired_session_clean_up ts w).1 ≤ now
        → Fate token (st.sessions w) (st.sessions (expired_session_clean_up ts w).1)
    unfolding expired_session_clean_up
    clean_up-Fate w token =
        elim (Bool-cases (ltb (ts.last_clean_up w + ts.clean_up_time) (ts.now w).0)) [
          | inr clean ↦ rw clean (λ _. inl (ap (λ s. s token) (st.now-sessions w)))
          | inl due ↦ rw due (
              let w₁ = (ts.now w).1 in
              let w₂ = (ts.get_all_session_keys w₁).1 in
              let same = st.keys-sessions w₁ ∙ st.now-sessions w in
              let G = λ (w' : ts.World).
                clock ts w' ≤ now → Fate token (st.sessions w) (st.sessions w') in
              bind-world ts.get_all_session_keys _ w₁ G (λ _. Fate-same token same)
                (λ keys _.
                  let w₃ = (clean_up_all ts keys w₂).1 in
                  let loop = λ (past : clock ts w₃ ≤ now).
                    Fate-after token (st.sessions w₃) same (clean_up_all-Fate keys w₂ token past) in
                  bind-world (clean_up_all ts keys) _ w₂ G loop (λ _ _ past.
                    let later = mark_clean-IsForward ts steady w₃ in
                    let past₁ : clock ts w₃ ≤ now = omega arith in
                    Fate-before token (st.sessions w) (loop past₁)
                      (st.mark-sessions (ts.now w₃).0 (ts.now w₃).1 ∙ st.now-sessions w₃))))
        ]

module _ (ts : SessionRpc) (st : SessionStore ts) (steady : SteadyClock ts) where
  -- On a clock that never runs backwards, each session is, after the clean-up, as it was before; or it
  -- was stored, is gone, and by the time at which the clean-up ends it had been left unused for longer
  -- than the time-out, counted from the time of last use with which it was stored.
  pub expired_session_clean_up-Fate :
      (w : ts.World) (token : String)
      → let after = (expired_session_clean_up ts w).1 in
        Fate ts st (clock ts after) token (st.sessions w) (st.sessions after)
  expired_session_clean_up-Fate w token =
      clean_up-Fate ts st (clock ts (expired_session_clean_up ts w).1) steady w token (omega arith)
