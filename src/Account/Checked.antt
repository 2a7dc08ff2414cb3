-- ===== src/Account/Checked.antt =====
-- What the checks of svc-account-session/account have seen when they let a request pass.
use hwmgmt_device_mgr_device.Base.{
  String, ◌≡◌, ◌≢◌, refl, ap, ◌∙◌, Bool, true, false, arith, ◌==◌, eq_iff, if◌then◌else◌, ◌∷◌, [],
  Option, some, none,
}
use hwmgmt_device_mgr_device.Base.Text.{◌<>◌}
use hwmgmt_device_mgr_device.Base.Exec.{Outcome, ok, pure, on_error, bind-run}
use hwmgmt_device_mgr_device.Response.{Rpc, general_error, text}
use hwmgmt_device_mgr_device.Response.Messages.{
  property_value_format_error, insufficient_privilege, status_forbidden, status_bad_request,
}
use hwmgmt_device_mgr_device.Session.Model.{Session, User, Role, SessionRpc}
use hwmgmt_device_mgr_device.Session.Views.{
  View, Handler, refuse, finish_with-fails, refused-ok, guard-ok,
}
use hwmgmt_device_mgr_device.Session.Handlers.Caller.{refuse_logged-fails}
use hwmgmt_device_mgr_device.Account.Password.{validate_password}
use hwmgmt_device_mgr_device.Account.Strong.{IsStrong, validate_password-IsStrong}
use hwmgmt_device_mgr_device.Account.Model.{Account, AccountRpc, AccountStore}
use hwmgmt_device_mgr_device.Account.Operations.{
  validate_request, parse_request, check_properties, need, check_password, check_new_user,
}

pub validate_request_complete :
    (user : User)
    → validate_request user ≡ ""
    → (user.user_name ≢ "") × (user.password ≢ "") × (user.role_id ≢ "")
validate_request_complete user h =
    let (n, p, r) =
      from_tests (user.user_name == "") (user.password == "") (user.role_id == "") h in
    (
      ground (arith, n, eq_iff user.user_name ""),
      ground (arith, p, eq_iff user.password ""),
      ground (arith, r, eq_iff user.role_id ""),
    )
  where
    from_tests :
        (n p r : Bool)
        → (let name = if n then "UserName " else "" in
            let password = if p then name <> "Password " else name in
            if r then password <> "RoleID" else password)
          ≡ ""
        → (n ≡ false) × (p ≡ false) × (r ≡ false)
    from_tests false false false k = (refl, refl, refl)
    from_tests true false false k = cc
    from_tests false true false k = cc
    from_tests true true false k = cc
    from_tests false false true k = cc
    from_tests true false true k = cc
    from_tests false true true k = cc
    from_tests true true true k = cc

module _ (ts : SessionRpc) (accounts : AccountRpc ts) where
  pub parse_request-ok :
      (doing body : String) (w : ts.World) {a : Account}
      → (parse_request ts accounts doing body w).0 ≡ ok a
      → (accounts.parse_account body ≡ ok a) × ((parse_request ts accounts doing body w).1 ≡ w)
  parse_request-ok doing body w h = ground arith

  pub check_properties-ok :
      (doing body : String) (w : ts.World)
      → (check_properties ts accounts doing body w).0 ≡ ok tt
      → (check_properties ts accounts doing body w).1 ≡ w
  check_properties-ok doing body w h = ground arith

  pub need-ok :
      (granted : Bool) (session : Session) (error_message : String) (w : ts.World)
      → (need ts accounts granted session error_message w).0 ≡ ok tt
      → (granted ≡ true) × ((need ts accounts granted session error_message w).1 ≡ w)
  need-ok true session error_message w h = (refl, refl)
  need-ok false session error_message w h = absurd (
      refuse_logged-fails ts session.token status_forbidden insufficient_privilege error_message w
        h)

  pub check_password-ok :
      (user_name password : String) (w : ts.World)
      → (check_password ts accounts user_name password w).0 ≡ ok tt
      → IsStrong accounts.password_rules accounts.to_lower user_name password
        × ((check_password ts accounts user_name password w).1 ≡ w)
  check_password-ok user_name password w h =
      from_outcome (validate_password accounts.password_rules accounts.to_lower user_name password)
        refl h
    where
      after : Option String → Handler ts.World (Unit {0})
      after o = elim o [
        | none ↦ pure tt
        | some error_message ↦
            refuse status_bad_request property_value_format_error error_message
              (text password ∷ text "Password" ∷ [])
      ]

      from_outcome :
          (o : Option String)
          → validate_password accounts.password_rules accounts.to_lower user_name password ≡ o
          → (after o w).0 ≡ ok tt
          → IsStrong accounts.password_rules accounts.to_lower user_name password
            × ((after o w).1 ≡ w)
      from_outcome none e k = (
        (validate_password-IsStrong accounts.password_rules accounts.to_lower user_name password).0
            e,
        refl,
      )
      from_outcome (some m) e k = absurd (finish_with-fails (general_error _ _ _ _) w k)

module _ (ts : SessionRpc) (accounts : AccountRpc ts) (st : AccountStore ts accounts) where
  pub check_new_user-ok :
      (user : User) (w : ts.World)
      → (check_new_user ts accounts user w).0 ≡ ok tt
      → (validate_request user ≡ "")
        × ((role : Role) × ((ts.get_role_details_by_id user.role_id w).0 ≡ ok role))
        × IsStrong accounts.password_rules accounts.to_lower user.user_name user.password
        × (st.users (check_new_user ts accounts user w).1 ≡ st.users w)
  check_new_user-ok user w h =
      let guard = if validate_request user == "" then pure tt else refuse _ _ _ _ in
      let (_, g, e₁) = bind-run guard _ w h in
      let (complete, same₁) = guard-ok (validate_request user == "") _ w g in
      let w₁ = (guard w).1 in
      let h₁ = rw e₁ at h in
      let role = on_error (ts.get_role_details_by_id user.role_id) _ in
      let (x, r, e₂) = bind-run role _ w₁ h₁ in
      let (found, same₂) = refused-ok (ts.get_role_details_by_id user.role_id) _ w₁ r in
      let w₂ = (role w₁).1 in
      let (strong, same₃) =
        check_password-ok ts accounts user.user_name user.password w₂ (rw e₂ at h₁) in
      (
        ground (arith, eq_iff (validate_request user) ""),
        (x, rw same₁ at found),
        strong,
        ap (λ (z : Outcome (Rpc View) (Unit {0}) × ts.World). st.users z.1) (e₁ ∙ e₂)
            ∙ ap st.users (same₃ ∙ same₂)
            ∙ st.role-users user.role_id w₁
            ∙ ap st.users same₁,
      )
