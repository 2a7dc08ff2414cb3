-- ===== src/Session/Views.antt =====
-- The bodies of svc-account-session/asresponse, and how a handler of that service ends early: the
-- error half of a handler's value is the response of an early return.
use hwmgmt_device_mgr_device.Base.{
  ◌≡◌, refl, arith, ◌≢◌, String, ℕ, ℤ, Bool, List, if◌then◌else◌, true, false,
}
use hwmgmt_device_mgr_device.Base.Exec.{Outcome, ok, err, panic, Exec, on_error, or_else, pure}
use hwmgmt_device_mgr_device.Response.{
  Rpc, Response, Arg, Total, general_error, internal_error_response, create_generic_response,
}
use hwmgmt_device_mgr_device.Session.Model.{Role}

-- `asresponse.Session`
pub record SessionView : Type 0 where
  pub response : Response
  pub user_name : String

-- `List`; a member is the `OdataID` of its link.
pub record ListView : Type 0 where
  pub response : Response
  pub members_count : ℕ
  pub members : List String

-- `SessionService`; the time-out is in nanoseconds.
pub record ServiceView : Type 0 where
  pub response : Response
  pub state : String
  pub health : String
  pub service_enabled : Bool
  pub session_timeout : ℕ
  pub sessions : String

-- `Account`; `role` is the link to the role.
pub record AccountView : Type 0 where
  pub response : Response
  pub user_name : String
  pub role_id : String
  pub account_types : List String
  pub role : String

-- `UserRole`
pub record RoleView : Type 0 where
  pub response : Response
  pub is_predefined : Bool
  pub assigned_privileges : List String
  pub oem_privileges : List String

pub data View : Type 0 where
  session : SessionView → View
  listing : ListView → View
  service : ServiceView → View
  account : AccountView → View
  user_role : RoleView → View
  role : Role → View

abbrev pub Handler : Type 0 → Type 0 → Type 0
Handler W A = Exec W (Rpc View) A

-- The return of a response that an error helper builds.
abbrev pub finish_with : {W A : Type 0} → Total (Rpc View) → Handler W A
finish_with t w = (elim t [ ok v ↦ err v | err e ↦ absurd e | panic p ↦ panic p ], w)

-- `GeneralError`, or the same body on a response with that status.
abbrev pub refuse : {W A : Type 0} → ℤ → String → String → List Arg → Handler W A
refuse code message error_message args = finish_with (general_error code message error_message args)

abbrev pub internal : {W A : Type 0} → String → Handler W A
internal error_message = finish_with (internal_error_response error_message)

-- A success message on a response, whose failure is a panic.
abbrev pub generic : {W : Type 0} → Response → String → Handler W Response
generic r status w = (
  elim (create_generic_response r status) [ ok v ↦ ok v | err e ↦ absurd e | panic p ↦ panic p ],
  w,
)

-- A refusal is no value.
pub finish_with-fails :
    {W A : Type 0} (t : Total (Rpc View)) (w : W) {a : A} → (finish_with t w).0 ≢ ok a
finish_with-fails (ok v) w h = cc
finish_with-fails (err e) w h = absurd e
finish_with-fails (panic p) w h = cc

-- A call that went well, where a failure would have been answered.
pub refused-ok :
    {W E A : Type 0} (m : Exec W E A) (t : E → Total (Rpc View)) (w : W) {a : A}
    → (on_error m (λ e. finish_with (t e)) w).0 ≡ ok a
    → ((m w).0 ≡ ok a) × ((on_error m (λ e. finish_with (t e)) w).1 ≡ (m w).1)
refused-ok {W} {E} {A} m t w {a} h = from_outcome (m w).0 h
  where
    from_outcome :
        (o : Outcome E A)
        → (or_else {F = Rpc View} o (λ e. finish_with (t e)) (m w).1).0 ≡ ok a
        → (o ≡ ok a) × ((or_else {F = Rpc View} o (λ e. finish_with (t e)) (m w).1).1 ≡ (m w).1)
    from_outcome (ok b) k = (ground arith, refl)
    from_outcome (err e) k = absurd (finish_with-fails (t e) (m w).1 k)
    from_outcome (panic p) k = cc

-- A test that has been passed, where failing it would have been answered.
pub guard-ok :
    {W : Type 0} (b : Bool) (t : Total (Rpc View)) (w : W)
    → ((if b then pure tt else finish_with t) w).0 ≡ ok (tt {0})
    → (b ≡ true) × (((if b then pure {A = Unit {0}} tt else finish_with t) w).1 ≡ w)
guard-ok true t w h = (refl, refl)
guard-ok false t w h = absurd (finish_with-fails t w h)
