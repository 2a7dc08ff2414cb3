-- ===== src/Task/Handlers/Granted.antt =====
-- Who is shown a task.
use hwmgmt_device_mgr_device.Base.{String, ◌≡◌, refl, ◌⊎◌, true, List, [], ◌∷◌, arith, eq_iff}
use hwmgmt_device_mgr_device.Base.Exec.{Outcome, ok, err, panic, Exec, bind-ok}
use hwmgmt_device_mgr_device.Response.{Rpc, Total}
use hwmgmt_device_mgr_device.Task.Model.{Task}
use hwmgmt_device_mgr_device.Task.Views.{View}
use hwmgmt_device_mgr_device.Task.Service.{TasksRpc}
use hwmgmt_device_mgr_device.Task.Handlers.Access.{
  is_ok, or_fail, access, find_task, session_user, owner_or_admin, authorize,
}

pub or_fail-ok :
    {W A : Type 0} (m : Exec W String A) (f : String → Total (Rpc View)) (w : W) {a : A}
    → (or_fail m f w).0 ≡ ok a
    → (m w).0 ≡ ok a
or_fail-ok {A} m f w {a} h = from_outcome (m w).0 refl h
  where
    not_failed :
        (o : Outcome ⊥ (Rpc View))
        → (let r : Outcome (Rpc View) A = elim o [
          | ok v ↦ err v
          | err x ↦ absurd x
          | panic p ↦ panic p
        ] in
            r)
          ≡ ok a
        → (m w).0 ≡ ok a
    not_failed (ok v) k = cc
    not_failed (err x) k = absurd x
    not_failed (panic p) k = cc

    from_outcome :
        (o : Outcome String A)
        → (m w).0 ≡ o
        → (elim o [
          | ok x ↦ ok x
          | err e ↦ elim (f e) [ ok v ↦ err v | err x ↦ absurd x | panic p ↦ panic p ]
          | panic p ↦ panic p
        ])
          ≡ ok a
        → (m w).0 ≡ ok a
    from_outcome (ok x) e k = ground arith
    from_outcome (err x) e k = not_failed (f x) k
    from_outcome (panic x) e k = cc

module _ (ts : TasksRpc) where
  -- The account service answers a check of these privileges with 200.
  abbrev pub Holds : String → List String → ts.World → Type 0
  Holds token privileges w = is_ok (ts.authentication_rpc token privileges w).0.status_code ≡ true

  abbrev pub after_login : String → ts.World → ts.World
  after_login token w = (ts.authentication_rpc token ("Login" ∷ []) w).1

  abbrev pub after_user : String → ts.World → ts.World
  after_user token w = (ts.get_session_user_name_rpc token (after_login token w)).1

  abbrev pub after_read : String → String → ts.World → ts.World
  after_read token id w = (ts.get_task_status_model id (after_user token w)).1

  -- The session may log in and has a user, the task is in the store, and the user owns it or may
  -- configure users; each call is made in the world that the one before it left.
  pub record Granted (token id : String) (w : ts.World) (t : Task) : Type 0 where
    pub login : Holds token ("Login" ∷ []) w
    pub user : String
    pub session : (ts.get_session_user_name_rpc token (after_login token w)).0 ≡ ok user
    pub stored : (ts.get_task_status_model id (after_user token w)).0 ≡ ok t
    pub owner : (user ≡ t.user_name) ⊎ Holds token ("ConfigureUsers" ∷ []) (after_read token id w)

  pub authorize-Holds :
      (token : String) (privileges : List String) (w : ts.World) {x : Unit {0}}
      → (authorize ts token privileges w).0 ≡ ok x
      → Holds token privileges w
  authorize-Holds token privileges w h = ground arith

  owner_or_admin-ok :
      (token user : String) (t : Task) (w : ts.World) {t' : Task}
      → (owner_or_admin ts token user t w).0 ≡ ok t'
      → (t ≡ t') × ((user ≡ t.user_name) ⊎ Holds token ("ConfigureUsers" ∷ []) w)
  owner_or_admin-ok token user t w h = ground (arith, eq_iff user t.user_name)

  pub access-Granted :
      (token id : String) (w : ts.World) {t : Task}
      → (access ts token id w).0 ≡ ok t
      → Granted token id w t
  unfolding access
  access-Granted token id w {t} h =
      let (_, login, h₁) = bind-ok (authorize ts token ("Login" ∷ [])) _ w h in
      let (user, session, h₂) = bind-ok (session_user ts token) _ _ h₁ in
      let (t', stored, h₃) = bind-ok (find_task ts id) _ _ h₂ in
      let (same, owner) = owner_or_admin-ok token user t' _ h₃ in
      record {
        login = authorize-Holds token _ w login;
        user = user;
        session = or_fail-ok (ts.get_session_user_name_rpc token) _ (after_login token w) session;
        stored =
            rw same at (or_fail-ok (ts.get_task_status_model id) _ (after_user token w) stored);
        owner = rw same at owner;
      }
