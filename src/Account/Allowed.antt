-- ===== src/Account/Allowed.antt =====
-- What the checks of `Update` of svc-account-session/account/update.go have seen when they let a request
-- pass.
use hwmgmt_device_mgr_device.Base.{
  String, ◌≡◌, refl, ap, ◌∙◌, ◌⊎◌, inl, inr, Bool-cases, true, ◌||◌, arith, ◌==◌, eq_iff,
}
use hwmgmt_device_mgr_device.Base.Exec.{Outcome, ok, pure, bind-run, ◌>>◌}
use hwmgmt_device_mgr_device.Errors.{Error}
use hwmgmt_device_mgr_device.Response.{Rpc}
use hwmgmt_device_mgr_device.Session.Model.{Session, User, SessionRpc}
use hwmgmt_device_mgr_device.Session.Views.{View, refused-ok}
use hwmgmt_device_mgr_device.Account.Strong.{IsStrong}
use hwmgmt_device_mgr_device.Account.Model.{Account, AccountRpc}
use hwmgmt_device_mgr_device.Account.Operations.{need}
use hwmgmt_device_mgr_device.Account.Changes.{check_role, change_password, may_update, show_updated}
use hwmgmt_device_mgr_device.Account.Checked.{need-ok, check_password-ok}

module _ (ts : SessionRpc) (accounts : AccountRpc ts) where
  pub show_updated-ok :
      (id : String) (user : User) (account : Account) (w : ts.World) {r : Rpc View}
      → (show_updated ts accounts id user account w).0 ≡ ok r
      → (show_updated ts accounts id user account w).1 ≡ w
  show_updated-ok id user account w h = ground arith

  pub check_role-ok :
      (role_id : String) (w : ts.World)
      → (check_role ts accounts role_id w).0 ≡ ok tt
      → ((check_role ts accounts role_id w).1 ≡ w)
        ⊎ ((check_role ts accounts role_id w).1 ≡ (ts.get_role_details_by_id role_id w).1)
  check_role-ok role_id w h =
      elim (Bool-cases (
        (role_id == "")
        || (role_id == "Administrator")
        || (role_id == "Operator")
        || (role_id == "ReadOnly"))) [
          | inl given ↦ inl (rw given refl)
          | inr custom ↦
              let read = ts.get_role_details_by_id role_id in
              let (found, same) = refused-ok (read >> pure tt) _ w (rw custom at h) in
              let (x, g, e) = bind-run read (λ _. pure tt) w found in
              inr (rw custom (same ∙ ap (λ (z : Outcome Error (Unit {0}) × ts.World). z.1) e))
        ]

  -- The privileges and the password of an update that is let through.
  pub record Allowed (session : Session) (user : User) (account : Account) : Type 0 where
    pub owner :
        ((user.user_name == session.user_name) || session.privileges "ConfigureUsers") ≡ true
    pub role : ((account.role_id == "") || session.privileges "ConfigureUsers") ≡ true
    pub password :
        (account.password ≡ "")
        ⊎ (((session.privileges "ConfigureSelf" || session.privileges "ConfigureUsers") ≡ true)
            × IsStrong accounts.password_rules accounts.to_lower user.user_name account.password)

  change_password-ok :
      (session : Session) (user : User) (account : Account) (w : ts.World)
      → (change_password ts accounts session user account w).0 ≡ ok tt
      → ((account.password ≡ "")
          ⊎ (((session.privileges "ConfigureSelf" || session.privileges "ConfigureUsers") ≡ true)
              × IsStrong accounts.password_rules accounts.to_lower user.user_name account.password))
        × ((change_password ts accounts session user account w).1 ≡ w)
  change_password-ok session user account w h = elim (Bool-cases (account.password == "")) [
    | inl kept ↦ rw kept (inl (ground (arith, kept, eq_iff account.password "")), refl)
    | inr new ↦
        let k = rw new at h in
        let may = session.privileges "ConfigureSelf" || session.privileges "ConfigureUsers" in
        let m₁ =
          need ts accounts may session
            "Roles, user is associated with, doesn't allow changing own or other users password" in
        let (_, a, e₁) = bind-run m₁ _ w k in
        let (granted, same₁) = need-ok ts accounts may session _ w a in
        let w₁ = (m₁ w).1 in
        let (strong, same₂) =
          check_password-ok ts accounts user.user_name account.password w₁ (rw e₁ at k) in
        rw new (
          inr (granted, strong),
          ap (λ (z : Outcome (Rpc View) (Unit {0}) × ts.World). z.1) e₁ ∙ same₂ ∙ same₁,
        )
  ]

  pub may_update-ok :
      (session : Session) (user : User) (account : Account) (w : ts.World)
      → (may_update ts accounts session user account w).0 ≡ ok tt
      → Allowed session user account × ((may_update ts accounts session user account w).1 ≡ w)
  may_update-ok session user account w h =
      let m₁ =
        need ts accounts
          ((user.user_name == session.user_name) || session.privileges "ConfigureUsers") session
          "User does not have the privilege to update other accounts" in
      let (_, a, e₁) = bind-run m₁ _ w h in
      let (owner, same₁) =
        need-ok ts accounts
          ((user.user_name == session.user_name) || session.privileges "ConfigureUsers") session _ w
          a in
      let w₁ = (m₁ w).1 in
      let h₁ = rw e₁ at h in
      let m₂ =
        need ts accounts ((account.role_id == "") || session.privileges "ConfigureUsers") session
          "User does not have the privilege to update any account role, including his own account" in
      let (_, b, e₂) = bind-run m₂ _ w₁ h₁ in
      let (role, same₂) =
        need-ok ts accounts ((account.role_id == "") || session.privileges "ConfigureUsers") session
          _ w₁ b in
      let w₂ = (m₂ w₁).1 in
      let (password, same₃) = change_password-ok session user account w₂ (rw e₂ at h₁) in
      (
        record { owner = owner; role = role; password = password },
        ap (λ (z : Outcome (Rpc View) (Unit {0}) × ts.World). z.1) (e₁ ∙ e₂)
            ∙ same₃
            ∙ same₂
            ∙ same₁,
      )
