-- ===== src/Account/Changed.antt =====
-- What `Delete` of svc-account-session/account/delete.go and `Update` of update.go have checked and
-- stored when they answer in full.
use hwmgmt_device_mgr_device.Base.{
  String, ◌≡◌, ◌≢◌, ap, ◌∙◌, sym, inl, inr, true, arith, ◌==◌, eq_iff, if◌then◌else◌, some, not,
  leb, Bool-cases, refl, false,
}
use hwmgmt_device_mgr_device.Base.Text.{◌<>◌}
use hwmgmt_device_mgr_device.Base.Exec.{Outcome, ok, pure, on_error, bind-run}
use hwmgmt_device_mgr_device.Response.{Rpc}
use hwmgmt_device_mgr_device.Session.Model.{Session, User, SessionRpc}
use hwmgmt_device_mgr_device.Session.Views.{View, refuse, refused-ok, guard-ok, finish_with}
use hwmgmt_device_mgr_device.Session.Handlers.Caller.{ok-injective}
use hwmgmt_device_mgr_device.Account.Model.{
  Account, AccountRpc, AccountStore, put_user, drop_user, updated_user,
}
use hwmgmt_device_mgr_device.Account.Operations.{
  default_admin_account, parse_request, check_properties, need,
}
use hwmgmt_device_mgr_device.Account.Changes.{
  delete, check_role, read_update, find_user, may_update, new_data, update,
}
use hwmgmt_device_mgr_device.Account.Checked.{parse_request-ok, check_properties-ok, need-ok}
use hwmgmt_device_mgr_device.Account.Allowed.{
  Allowed, show_updated-ok, check_role-ok, may_update-ok,
}

module _ (ts : SessionRpc) (accounts : AccountRpc ts) (st : AccountStore ts accounts) where
  -- A full answer of Delete means that the account is not the default one and that the caller may
  -- configure users; that account is gone, and the others are as they were.
  pub delete-gone :
      (session : Session) (id : String) (w : ts.World) {r : Rpc View}
      → (delete ts accounts session id w).0 ≡ ok r
      → (id ≢ "admin")
        × (session.privileges "ConfigureUsers" ≡ true)
        × (st.users (delete ts accounts session id w).1 ≡ drop_user id (st.users w))
  unfolding delete
  delete-gone session id w h =
      let m₁ = if not (id == default_admin_account) then pure tt else refuse _ _ _ _ in
      let (_, g, e₁) = bind-run m₁ _ w h in
      let (other, same₁) = guard-ok (not (id == default_admin_account)) _ w g in
      let w₁ = (m₁ w).1 in
      let h₁ = rw e₁ at h in
      let m₂ =
        need ts accounts (session.privileges "ConfigureUsers") session
          (session.user_name <> " does not have the privilege to delete user") in
      let (_, n, e₂) = bind-run m₂ _ w₁ h₁ in
      let (privilege, same₂) =
        need-ok ts accounts (session.privileges "ConfigureUsers") session _ w₁ n in
      let w₂ = (m₂ w₁).1 in
      let h₂ = rw e₂ at h₁ in
      let m₃ = on_error (accounts.delete_user id) _ in
      let (_, d, e₃) = bind-run m₃ _ w₂ h₂ in
      let (done, same₃) = refused-ok (accounts.delete_user id) _ w₂ d in
      (
        ground (arith, other, eq_iff id "admin"),
        privilege,
        ap (λ (z : Outcome (Rpc View) (Rpc View) × ts.World). st.users z.1) (e₁ ∙ e₂ ∙ e₃)
            ∙ ap st.users same₃
            ∙ st.delete-ok id w₂ done
            ∙ ap (λ (v : ts.World). drop_user id (st.users v)) (same₂ ∙ same₁),
      )

  read_update-ok :
      (body : String) (w : ts.World) {account : Account}
      → (read_update ts accounts body w).0 ≡ ok account
      → (accounts.parse_account body ≡ ok account)
        × (account.user_name ≡ "")
        × (st.users (read_update ts accounts body w).1 ≡ st.users w)
  read_update-ok body w h =
      let m₁ = parse_request ts accounts "unable to parse the update account request" body in
      let (account, p, e₁) = bind-run m₁ _ w h in
      let (parsed, same₁) =
        parse_request-ok ts accounts "unable to parse the update account request" body w p in
      let w₁ = (m₁ w).1 in
      let h₁ = rw e₁ at h in
      let m₂ = if not (leb (accounts.properties body) 0) then pure tt else refuse _ _ _ _ in
      let (_, g, e₂) = bind-run m₂ _ w₁ h₁ in
      let (_, same₂) = guard-ok (not (leb (accounts.properties body) 0)) _ w₁ g in
      let w₂ = (m₂ w₁).1 in
      let h₂ = rw e₂ at h₁ in
      let m₃ = if account.user_name == "" then pure tt else finish_with _ in
      let (_, n, e₃) = bind-run m₃ _ w₂ h₂ in
      let (unnamed, same₃) = guard-ok (account.user_name == "") _ w₂ n in
      let w₃ = (m₃ w₂).1 in
      let h₃ = rw e₃ at h₂ in
      let m₄ = check_properties ts accounts "Request parameters validaton failed: " body in
      let (_, c, e₄) = bind-run m₄ _ w₃ h₃ in
      let same₄ =
        check_properties-ok ts accounts "Request parameters validaton failed: " body w₃ c in
      let w₄ = (m₄ w₃).1 in
      let h₄ = rw e₄ at h₃ in
      let m₅ = check_role ts accounts account.role_id in
      let (_, r, e₅) = bind-run m₅ _ w₄ h₄ in
      let kept : st.users (m₅ w₄).1 ≡ st.users w₄ =
        elim (check_role-ok ts accounts account.role_id w₄ r) [
          | inl e ↦ ap st.users e
          | inr e ↦ ap st.users e ∙ st.role-users account.role_id w₄
        ] in
      let full = ok-injective (rw e₅ at h₄) in
      let blank_name : account.user_name ≡ "" =
        ground (arith, unnamed, eq_iff account.user_name "") in
      (
        rw full at parsed,
        rw full at blank_name,
        ap (λ (z : Outcome (Rpc View) Account × ts.World). st.users z.1) (e₁ ∙ e₂ ∙ e₃ ∙ e₄ ∙ e₅)
            ∙ kept
            ∙ ap st.users (same₄ ∙ same₃ ∙ same₂ ∙ same₁),
      )

  -- The password and the role that are written.
  written :
      (user : User) (account : Account)
      → ((text : String) → ts.hashed text ≢ "")
      → updated_user user (new_data ts accounts account) ≡ record {
        user_name = user.user_name;
        password = if account.password == "" then user.password else ts.hashed account.password;
        role_id = if account.role_id == "" then user.role_id else account.role_id;
        account_types = user.account_types;
      }
  written user account some_hash = elim (Bool-cases (account.password == "")) [
    | inl kept ↦ rw kept refl
    | inr new ↦
        let h : (ts.hashed account.password == "") ≡ false =
          ground (arith, some_hash account.password, eq_iff (ts.hashed account.password) "") in
        rw (new, h) refl
  ]

  -- What Update has looked at and stored, between two worlds.
  pub record Updated (body id : String) (session : Session) (w w' : ts.World) : Type 0 where
    pub account : Account
    pub parsed : accounts.parse_account body ≡ ok account
    pub unnamed : account.user_name ≡ ""
    pub user : User
    pub held : st.users w id ≡ some user
    pub key : user.user_name ≡ id
    pub allowed : Allowed ts accounts session user account
    pub stored :
        st.users w'
        ≡ put_user
            (record {
              user_name = user.user_name;
              password =
                  if account.password == "" then user.password else ts.hashed account.password;
              role_id = if account.role_id == "" then user.role_id else account.role_id;
              account_types = user.account_types;
            })
            (st.users w)

  -- Where no text has the empty hash, a full answer of Update means that the request names no user,
  -- that the account is stored and is the caller's or the caller may configure users, that a caller who
  -- may not has changed no role, not even the own, and that a new password is one that the rules admit,
  -- from a caller with one of the two privileges. Of the account the password, as its hash, and the role
  -- have been changed where the request gives them, and the other accounts are as they were.
  pub update-Updated :
      (body id : String) (session : Session) (w : ts.World) {r : Rpc View}
      → ((text : String) → ts.hashed text ≢ "")
      → (update ts accounts body id session w).0 ≡ ok r
      → Updated body id session w (update ts accounts body id session w).1
  unfolding update
  update-Updated body id session w some_hash h =
      let m₁ = read_update ts accounts body in
      let (account, p, e₁) = bind-run m₁ _ w h in
      let (parsed, unnamed, same₁) = read_update-ok body w p in
      let w₁ = (m₁ w).1 in
      let h₁ = rw e₁ at h in
      let m₂ = find_user ts accounts id in
      let (user, f, e₂) = bind-run m₂ _ w₁ h₁ in
      let (found, same₂) = refused-ok (ts.get_user_details id) _ w₁ f in
      let w₂ = (m₂ w₁).1 in
      let h₂ = rw e₂ at h₁ in
      let m₃ = may_update ts accounts session user account in
      let (_, a, e₃) = bind-run m₃ _ w₂ h₂ in
      let (allowed, same₃) = may_update-ok ts accounts session user account w₂ a in
      let w₃ = (m₃ w₂).1 in
      let h₃ = rw e₃ at h₂ in
      let new = new_data ts accounts account in
      let m₄ = on_error (accounts.update_user_details user new) _ in
      let (_, u, e₄) = bind-run m₄ _ w₃ h₃ in
      let (done, same₄) = refused-ok (accounts.update_user_details user new) _ w₃ u in
      let w₄ = (m₄ w₃).1 in
      let same₅ = show_updated-ok ts accounts id user account w₄ (rw e₄ at h₃) in
      record {
        account = account;
        parsed = parsed;
        unnamed = unnamed;
        user = user;
        held = ap (λ u. u id) (sym same₁) ∙ st.get-ok id w₁ found;
        key = st.get-name id w₁ found;
        allowed = allowed;
        stored =
            ap (λ (z : Outcome (Rpc View) (Rpc View) × ts.World). st.users z.1) (e₁ ∙ e₂ ∙ e₃ ∙ e₄)
            ∙ ap st.users (same₅ ∙ same₄)
            ∙ st.update-ok user new w₃ done
            ∙ ap (put_user (updated_user user new))
                (ap st.users (same₃ ∙ same₂) ∙ st.get-users id w₁ ∙ same₁)
            ∙ ap (λ u. put_user u (st.users w)) (written user account some_hash);
      }
