-- ===== src/Role/Checked.antt =====
-- What the checks of svc-account-session/role/create.go have seen when they let a request pass.
use hwmgmt_device_mgr_device.Base.{
  String, ◌≡◌, ◌≢◌, refl, ap, ◌∙◌, ◌⊎◌, inl, inr, Bool-cases, true, arith, ◌==◌, eq_iff,
  if◌then◌else◌, ◌∷◌, [], List, Option, some, none, All, contains, is_empty,
}
use hwmgmt_device_mgr_device.Base.Exec.{Outcome, ok, Exec, pure, on_error, bind-run}
use hwmgmt_device_mgr_device.Errors.{Error}
use hwmgmt_device_mgr_device.Response.{Rpc, general_error, text}
use hwmgmt_device_mgr_device.Response.Messages.{
  insufficient_privilege, status_forbidden, status_created, status_bad_request,
  property_value_not_in_list,
}
use hwmgmt_device_mgr_device.Session.Model.{Session, Role, SessionRpc}
use hwmgmt_device_mgr_device.Session.Views.{View, Handler, refuse, finish_with-fails, refused-ok}
use hwmgmt_device_mgr_device.Session.Handlers.Caller.{refuse_logged-fails}
use hwmgmt_device_mgr_device.Role.Operations.{
  RoleRpc, first_unknown, check_privileges, read_role, check_for_privilege, show_role,
}

abbrev pub Roles : Type 0
Roles = String → Option Role

abbrev pub put_role : Role → Roles → Roles
put_role x s k = if x.id == k then some x else s k

-- What roles rely on: the reads change no role, and a creation that reports success has been done.
pub record RoleStore (ts : SessionRpc) (rs : RoleRpc ts) : Type 1 where
  pub roles : ts.World → Roles
  pub registry-roles : (w : ts.World) → roles (rs.get_privilege_registry w).1 ≡ roles w
  pub oem-roles : (w : ts.World) → roles (rs.get_oem_privileges w).1 ≡ roles w
  pub redfish-roles : (w : ts.World) → roles (rs.get_redfish_roles w).1 ≡ roles w
  pub create-ok :
      (x : Role) (w : ts.World)
      → (rs.create_role x w).0 ≡ ok tt
      → roles (rs.create_role x w).1 ≡ put_role x (roles w)

first_unknown-All :
    (registry ps : List String)
    → first_unknown registry ps ≡ none
    → All (λ p. contains registry p ≡ true) ps
first_unknown-All registry [] h = tt
first_unknown-All registry (p ∷ ps) h = (ground arith, first_unknown-All registry ps (ground arith))

module _ (ts : SessionRpc) (rs : RoleRpc ts) where
  -- No privileges, or such as a registry that has been read has.
  abbrev pub AreKnown : Exec ts.World Error (List String) → List String → Type 0
  AreKnown read wanted =
      (is_empty wanted ≡ true)
      ⊎ ((registry : List String) × (at : ts.World) × ((read at).0 ≡ ok registry)
          × All (λ p. contains registry p ≡ true) wanted)

  pub check_privileges-ok :
      (read : Exec ts.World Error (List String)) (doing wrong property : String)
      (wanted : List String) (w : ts.World)
      → (check_privileges ts rs read doing wrong property wanted w).0 ≡ ok tt
      → AreKnown read wanted
        × (((check_privileges ts rs read doing wrong property wanted w).1 ≡ w)
            ⊎ ((check_privileges ts rs read doing wrong property wanted w).1 ≡ (read w).1))
  check_privileges-ok read doing wrong property wanted w h = elim (Bool-cases (is_empty wanted)) [
    | inl none_wanted ↦ (inl none_wanted, inl (rw none_wanted refl))
    | inr some_wanted ↦
        let m = on_error read _ in
        let (registry, r, e) = bind-run m _ w (rw some_wanted at h) in
        let (got, same) = refused-ok read _ w r in
        let (known, kept) =
          looked_up registry (m w).1 (first_unknown registry wanted) refl
            (rw e at (rw some_wanted at h)) in
        (
          inr (registry, w, got, known),
          inr (
              rw some_wanted
                (ap (λ (z : Outcome (Rpc View) (Unit {0}) × ts.World). z.1) e ∙ kept ∙ same)),
        )
  ]
    where
      after : Option String → Handler ts.World (Unit {0})
      after o = elim o [
        | none ↦ pure tt
        | some p ↦
            refuse status_bad_request property_value_not_in_list wrong (text p ∷ text property ∷ [])
      ]

      looked_up :
          (registry : List String) (w' : ts.World) (o : Option String)
          → first_unknown registry wanted ≡ o
          → (after o w').0 ≡ ok tt
          → All (λ p. contains registry p ≡ true) wanted × ((after o w').1 ≡ w')
      looked_up registry w' none e k = (first_unknown-All registry wanted e, refl)
      looked_up registry w' (some p) e k = absurd (finish_with-fails (general_error _ _ _ _) w' k)

  pub check_for_privilege-ok :
      (session : Session) (w : ts.World)
      → (check_for_privilege ts rs session w).0 ≡ ok tt
      → (session.privileges "ConfigureUsers" ≡ true) × ((check_for_privilege ts rs session w).1 ≡ w)
  check_for_privilege-ok session w h = elim (Bool-cases (session.privileges "ConfigureUsers")) [
    | inl granted ↦ (granted, rw granted refl)
    | inr denied ↦ absurd (
        refuse_logged-fails ts session.token status_forbidden insufficient_privilege
          "User does not have the privilege to create a new role" w (rw denied at h))
  ]

  pub read_role-ok :
      (body : String) (w : ts.World) {request : Role}
      → (read_role ts rs body w).0 ≡ ok request
      → (rs.parse_role body ≡ ok request) × (request.id ≢ "") × ((read_role ts rs body w).1 ≡ w)
  read_role-ok body w {request} h =
      (ground arith, ground (arith, eq_iff request.id ""), ground arith)

  pub show_role-ok :
      (role : Role) (w : ts.World) {r : Rpc View}
      → (show_role ts rs role w).0 ≡ ok r
      → (r.status_code ≡ status_created) × ((show_role ts rs role w).1 ≡ w)
  show_role-ok role w h = ground arith
