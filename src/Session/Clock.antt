-- ===== src/Session/Clock.antt =====
-- The clock of the account and session service (`time.Now`, which never runs backwards) through the
-- clean-up of expired sessions in svc-account-session/auth/session.go.
use hwmgmt_device_mgr_device.Base.{
  String, ◌≤◌, Bool-cases, List, [], ◌∷◌, refl, ◌≡◌, inl, inr, arith,
}
use hwmgmt_device_mgr_device.Base.Exec.{
  Outcome, ok, err, panic, Exec, pure, bind-world, on_error, ◌>>=◌,
}
use hwmgmt_device_mgr_device.Errors.{Error}
use hwmgmt_device_mgr_device.Session.Model.{Session, SessionRpc, Time}
use hwmgmt_device_mgr_device.Session.Operations.{timed_out}
use hwmgmt_device_mgr_device.Session.CleanUp.{
  delete_expired, clean_up_one, clean_up_all, mark_clean,
}

module _ (ts : SessionRpc) where
  abbrev pub clock : ts.World → Time
  clock w = (ts.now w).0

  -- `time.Now` has a monotonic reading: no call sets the clock back.
  pub record SteadyClock : Type 0 where
    pub now : (w : ts.World) → clock w ≤ clock (ts.now w).1
    pub get_session : (token : String) (w : ts.World) → clock w ≤ clock (ts.get_session token w).1
    pub delete_stored : (x : Session) (w : ts.World) → clock w ≤ clock (ts.delete_stored x w).1
    pub get_all_session_keys : (w : ts.World) → clock w ≤ clock (ts.get_all_session_keys w).1
    pub set_last_clean_up :
        (time : Time) (w : ts.World) → clock w ≤ clock (ts.set_last_clean_up time w)

  pub attempted :
      (x : Session) (w : ts.World)
      → (on_error {F = Error} (ts.delete_stored x) (λ e. pure (tt {0})) w).1
        ≡ (ts.delete_stored x w).1
  attempted x w = ground arith

  abbrev pub IsForward : {A : Type 0} → Exec ts.World Error A → Type 0
  IsForward m = (w : ts.World) → clock w ≤ clock (m w).1

  bind-IsForward :
      {A B : Type 0} (m : Exec ts.World Error A) (f : A → Exec ts.World Error B)
      → IsForward m
      → ((a : A) → IsForward (f a))
      → IsForward (m >>= f)
  bind-IsForward m f h k w =
      bind-world m f w (λ w'. clock w ≤ clock w') (h w)
        (λ a _. let first = h w in let then = k a (m w).1 in omega arith)

  module _ (steady : SteadyClock) where
    pub delete_expired-IsForward : (x : Session) → IsForward (delete_expired ts x)
    delete_expired-IsForward x w =
        let read = steady.now w in
        let deleted = steady.delete_stored x (ts.now w).1 in
        elim (Bool-cases (timed_out ts x (ts.now w).0)) [
          | inr fresh ↦ rw fresh read
          | inl late ↦ rw (late, attempted x (ts.now w).1) (omega arith)
        ]

    pub clean_up_one-IsForward : (key : String) → IsForward (clean_up_one ts key)
    unfolding clean_up_one
    clean_up_one-IsForward key w = from_outcome (ts.get_session key w).0 refl
      where
        w₁ : ts.World
        w₁ = (ts.get_session key w).1

        from_outcome :
            (o : Outcome Error Session)
            → (ts.get_session key w).0 ≡ o
            → clock w
              ≤ clock (
                  let r : Outcome Error (Unit {0}) × ts.World = elim o [
                    | ok x ↦ delete_expired ts x w₁
                    | err e ↦ (ok tt, w₁)
                    | panic p ↦ (panic p, w₁)
                  ] in
                  r.1)
        from_outcome (ok x) e =
            let read = steady.get_session key w in
            let deleted = delete_expired-IsForward x w₁ in omega arith
        from_outcome (err x) e = steady.get_session key w
        from_outcome (panic p) e = steady.get_session key w

    pub clean_up_all-IsForward : (keys : List String) → IsForward (clean_up_all ts keys)
    unfolding clean_up_all
    clean_up_all-IsForward [] w = omega arith
    clean_up_all-IsForward (key ∷ keys) w =
        bind-IsForward (clean_up_one ts key) (λ _. clean_up_all ts keys)
          (clean_up_one-IsForward key) (λ _. clean_up_all-IsForward keys) w

    pub mark_clean-IsForward : IsForward (mark_clean ts)
    mark_clean-IsForward w =
        let read = steady.now w in
        let marked = steady.set_last_clean_up (clock w) (ts.now w).1 in omega arith
