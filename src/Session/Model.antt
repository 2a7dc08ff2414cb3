-- ===== src/Session/Model.antt =====
-- The session record of svc-account-session/asmodel/sessions.go and the calls that authorization
-- makes, over a world that holds the database and the clock.
use hwmgmt_device_mgr_device.Base.{
  String, ℕ, ◌≡◌, Bool, Option, some, List, ◌==◌, if◌then◌else◌, ◌⊎◌, none,
}
use hwmgmt_device_mgr_device.Base.Exec.{ok, Exec, Outcome}
use hwmgmt_device_mgr_device.Errors.{Error}

-- An instant, in nanoseconds.
abbrev pub Time : Type 0
Time = ℕ

-- A key that the map of privileges lacks is `false`.
pub record Session : Type 0 where
  pub id : String
  pub token : String
  pub user_name : String
  pub role_id : String
  pub privileges : String → Bool
  pub origin : String
  pub created_time : Time
  pub last_used_time : Time

-- `CreateSession`: the credentials of a request.
pub record CreateSession : Type 0 where
  pub user_name : String
  pub password : String

-- `User` of account.go and `Role` of userRole.go.
pub record User : Type 0 where
  pub user_name : String
  pub password : String
  pub role_id : String
  pub account_types : List String

pub record Role : Type 0 where
  pub id : String
  pub is_predefined : Bool
  pub assigned_privileges : List String
  pub oem_privileges : List String

-- `authproto.AuthRequest`
pub record AuthRequest : Type 0 where
  pub session_token : String
  pub privileges : List String

pub record SessionRpc : Type 1 where
  pub World : Type 0
  pub get_session : String → Exec World Error Session
  pub update_session : Session → Exec World Error (Unit {0})
  pub persist_session : Session → Exec World Error (Unit {0})
  pub delete_stored : Session → Exec World Error (Unit {0})
  pub get_all_session_keys : Exec World Error (List String)
  pub get_user_details : String → Exec World Error User
  pub get_role_details_by_id : String → Exec World Error Role
  -- `lastExpiredSessionCleanUpTime`
  pub last_clean_up : World → Time
  pub set_last_clean_up : Time → World → World
  -- SHA3-512, in URL-safe base64.
  pub hashed : String → String
  -- `uuid.NewV4().String()`
  pub new_v4 : World → String × World
  -- The addresses "host:port" of the databases, and the services of the configuration.
  pub in_memory_address : String
  pub on_disk_address : String
  pub enabled_services : List String
  -- `json.Unmarshal` of a create request, and `RequestParamsCaseValidator` on its text.
  pub parse_create_session : String → Outcome String CreateSession
  pub invalid_properties : String → Outcome String String
  -- `time.Now()`
  pub now : World → Time × World
  -- `go expiredSessionCleanUp()`: hands the call to the scheduler.
  pub go_expired_session_clean_up : World → World
  -- `SessionTimeOutInMins` and `ExpiredSessionCleanUpTimeInMins`, in nanoseconds.
  pub session_time_out : ℕ
  pub clean_up_time : ℕ

abbrev pub Sessions : Type 0
Sessions = String → Option Session

abbrev pub put_session : Session → Sessions → Sessions
put_session x s k = if x.token == k then some x else s k

abbrev pub drop_session : String → Sessions → Sessions
drop_session token s k = if token == k then none else s k

-- What authorization relies on: a read shows the stored session, which stands under its token, and
-- changes nothing stored; a write that reports success is what later reads show, one that
-- fails may have been done, and the other calls leave the sessions alone.
pub record SessionStore (ts : SessionRpc) : Type 1 where
  pub sessions : ts.World → Sessions
  pub get-sessions :
      (token : String) (w : ts.World) → sessions (ts.get_session token w).1 ≡ sessions w
  pub get-ok :
      (token : String) (w : ts.World) {x : Session}
      → (ts.get_session token w).0 ≡ ok x
      → sessions w token ≡ some x
  pub get-token :
      (token : String) (w : ts.World) {x : Session}
      → (ts.get_session token w).0 ≡ ok x
      → x.token ≡ token
  pub update-ok :
      (x : Session) (w : ts.World)
      → (ts.update_session x w).0 ≡ ok tt
      → sessions (ts.update_session x w).1 ≡ put_session x (sessions w)
  pub update-any :
      (x : Session) (w : ts.World)
      → (sessions (ts.update_session x w).1 ≡ sessions w)
        ⊎ (sessions (ts.update_session x w).1 ≡ put_session x (sessions w))
  pub persist-ok :
      (x : Session) (w : ts.World)
      → (ts.persist_session x w).0 ≡ ok tt
      → sessions (ts.persist_session x w).1 ≡ put_session x (sessions w)
  pub delete-ok :
      (x : Session) (w : ts.World)
      → (ts.delete_stored x w).0 ≡ ok tt
      → sessions (ts.delete_stored x w).1 ≡ drop_session x.token (sessions w)
  pub delete-any :
      (x : Session) (w : ts.World)
      → (sessions (ts.delete_stored x w).1 ≡ sessions w)
        ⊎ (sessions (ts.delete_stored x w).1 ≡ drop_session x.token (sessions w))
  pub keys-sessions : (w : ts.World) → sessions (ts.get_all_session_keys w).1 ≡ sessions w
  pub user-sessions :
      (name : String) (w : ts.World) → sessions (ts.get_user_details name w).1 ≡ sessions w
  pub role-sessions :
      (id : String) (w : ts.World) → sessions (ts.get_role_details_by_id id w).1 ≡ sessions w
  pub mark-sessions :
      (time : Time) (w : ts.World) → sessions (ts.set_last_clean_up time w) ≡ sessions w
  pub uuid-sessions : (w : ts.World) → sessions (ts.new_v4 w).1 ≡ sessions w
  pub now-sessions : (w : ts.World) → sessions (ts.now w).1 ≡ sessions w
  pub spawn-sessions : (w : ts.World) → sessions (ts.go_expired_session_clean_up w) ≡ sessions w
