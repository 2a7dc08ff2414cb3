-- ===== src/Session/Handlers/Opened.antt =====
-- What CreateNewSession of svc-account-session/session/create.go has checked and stored.
use hwmgmt_device_mgr_device.Base.{
  String, ◌≡◌, ap, ◌∙◌, sym, true, contains, arith, eq_iff, ◌∷◌, [],
}
use hwmgmt_device_mgr_device.Base.Text.{◌<>◌}
use hwmgmt_device_mgr_device.Base.Exec.{Outcome, ok, bind-run, on_error}
use hwmgmt_device_mgr_device.Response.{Rpc}
use hwmgmt_device_mgr_device.Response.Messages.{status_created}
use hwmgmt_device_mgr_device.Session.Model.{
  CreateSession, User, Role, SessionRpc, SessionStore, put_session,
}
use hwmgmt_device_mgr_device.Session.CleanUp.{check_session_creation_credentials}
use hwmgmt_device_mgr_device.Session.Views.{View, Handler}
use hwmgmt_device_mgr_device.Session.Handlers.Operations.{sessions_uri}
use hwmgmt_device_mgr_device.Session.Handlers.Create.{
  new_session, read_request, login_role, open_session, create_new_session, refuse_credentials,
}

-- The worlds in which CreateNewSession goes on after its reads, and what it draws.
module _ (ts : SessionRpc) where
  abbrev pub after_user : String → ts.World → ts.World
  after_user name w = (ts.get_user_details name (ts.go_expired_session_clean_up w)).1

  abbrev pub after_role : String → User → ts.World → ts.World
  after_role name user w = (ts.get_role_details_by_id user.role_id (after_user name w)).1

  abbrev pub after_clock : String → User → ts.World → ts.World
  after_clock name user w = (ts.now (after_role name user w)).1

  abbrev pub drawn_token : String → User → ts.World → String
  drawn_token name user w = (ts.new_v4 (ts.new_v4 (after_clock name user w)).1).0

module _ (ts : SessionRpc) (st : SessionStore ts) where
  credentials-ok :
      (name password : String) (w : ts.World) {user : User}
      → (check_session_creation_credentials ts name password w).0 ≡ ok user
      → ((ts.get_user_details name (ts.go_expired_session_clean_up w)).0 ≡ ok user)
        × (user.password ≡ ts.hashed password)
        × ((check_session_creation_credentials ts name password w).1 ≡ after_user ts name w)
  unfolding check_session_creation_credentials
  credentials-ok name password w {user} h =
      ground (arith, eq_iff user.password (ts.hashed password))

  read_request-ok :
      (body : String) (w : ts.World) {request : CreateSession}
      → (read_request ts body w).0 ≡ ok request
      → (ts.parse_create_session body ≡ ok request) × ((read_request ts body w).1 ≡ w)
  read_request-ok body w h = ground arith

  login_role-ok :
      (user : User) (w : ts.World) {role : Role}
      → (login_role ts user w).0 ≡ ok role
      → ((ts.get_role_details_by_id user.role_id w).0 ≡ ok role)
        × (contains role.assigned_privileges "Login" ≡ true)
        × ((login_role ts user w).1 ≡ (ts.get_role_details_by_id user.role_id w).1)
  login_role-ok user w h = ground arith

  open_session-ok :
      (request : CreateSession) (user : User) (role : Role) (w : ts.World) {r : Rpc View}
      {id : String}
      → (open_session ts request user role w).0 ≡ ok (r, id)
      → (r.status_code ≡ status_created)
        × (r.header
            ≡ ("Link", "<" <> sessions_uri <> "/" <> id <> "/>; rel=self")
              ∷ ("X-Auth-Token", (ts.new_v4 (ts.new_v4 (ts.now w).1).1).0)
              ∷ [])
        × (id ≡ (ts.new_v4 (ts.now w).1).0)
        × (st.sessions (open_session ts request user role w).1
            ≡ put_session
                (record {
                  id = id;
                  token = (ts.new_v4 (ts.new_v4 (ts.now w).1).1).0;
                  user_name = user.user_name;
                  role_id = user.role_id;
                  privileges = λ p. contains role.assigned_privileges p;
                  origin = "";
                  created_time = (ts.now w).0;
                  last_used_time = (ts.now w).0;
                })
                (st.sessions w))
  unfolding open_session
  open_session-ok request user role w h =
      let w₁ = (ts.now w).1 in
      let w₂ = (ts.new_v4 w₁).1 in
      let w₃ = (ts.new_v4 w₂).1 in
      let x = new_session (ts.new_v4 w₁).0 (ts.new_v4 w₂).0 user role (ts.now w).0 in
      (
        ground arith,
        ground arith,
        ground arith,
        ground (
          arith,
          st.persist-ok x w₃,
          st.uuid-sessions w₂,
          st.uuid-sessions w₁,
          st.now-sessions w,
        ),
      )

  -- The user of a request whose credentials have been accepted.
  abbrev asked : CreateSession → Handler ts.World User
  asked request =
      on_error (check_session_creation_credentials ts request.user_name request.password)
        (refuse_credentials ts)

  asked-ok :
      (request : CreateSession) (w : ts.World) {user : User}
      → (asked request w).0 ≡ ok user
      → ((check_session_creation_credentials ts request.user_name request.password w).0 ≡ ok user)
        × ((asked request w).1
            ≡ (check_session_creation_credentials ts request.user_name request.password w).1)
  asked-ok request w h = ground arith

  -- What CreateNewSession has looked at and stored, between two worlds.
  pub record Opened (body id : String) (r : Rpc View) (w w' : ts.World) : Type 0 where
    pub request : CreateSession
    pub parsed : ts.parse_create_session body ≡ ok request
    pub user : User
    pub known :
        (ts.get_user_details request.user_name (ts.go_expired_session_clean_up w)).0 ≡ ok user
    pub password : user.password ≡ ts.hashed request.password
    pub role : Role
    pub assigned :
        (ts.get_role_details_by_id user.role_id (after_user ts request.user_name w)).0 ≡ ok role
    pub login : contains role.assigned_privileges "Login" ≡ true
    pub stored :
        st.sessions w'
        ≡ put_session
            (record {
              id = id;
              token = drawn_token ts request.user_name user w;
              user_name = user.user_name;
              role_id = user.role_id;
              privileges = λ p. contains role.assigned_privileges p;
              origin = "";
              created_time = (ts.now (after_role ts request.user_name user w)).0;
              last_used_time = (ts.now (after_role ts request.user_name user w)).0;
            })
            (st.sessions w)
    pub drawn : id ≡ (ts.new_v4 (after_clock ts request.user_name user w)).0
    pub code : r.status_code ≡ status_created
    pub header :
        r.header
        ≡ ("Link", "<" <> sessions_uri <> "/" <> id <> "/>; rel=self")
          ∷ ("X-Auth-Token", drawn_token ts request.user_name user w)
          ∷ []

  -- A full answer of CreateNewSession means that a session has been opened: for the user that the
  -- request names, as then read, who has given the password whose hash is stored, with exactly the
  -- privileges that the user's role, as then read, assigns, Login among them, created and used at the
  -- time that the clock then showed. It is stored under the token that was then drawn, which the
  -- header of the answer, a 201, shows, and the other sessions are as they were.
  pub create_new_session-Opened :
      (body : String) (w : ts.World) {r : Rpc View} {id : String}
      → (create_new_session ts body w).0 ≡ ok (r, id)
      → Opened body id r w (create_new_session ts body w).1
  unfolding create_new_session
  create_new_session-Opened body w {id = id} h =
      let (request, p, e₁) = bind-run (read_request ts body) _ w h in
      let (parsed, same) = read_request-ok body w p in
      let w₁ = (read_request ts body w).1 in
      let (user, u, e₂) = bind-run (asked request) _ w₁ (rw e₁ at h) in
      let (checked, same₂) = asked-ok request w₁ u in
      let (known, password, after₂) =
        credentials-ok request.user_name request.password w₁ checked in
      let w₂ = (asked request w₁).1 in
      let (role, l, e₃) = bind-run (login_role ts user) _ w₂ (rw e₂ at (rw e₁ at h)) in
      let (assigned, login, after₃) = login_role-ok user w₂ l in
      let name = request.user_name in
      let at_user : w₂ ≡ after_user ts name w = same₂ ∙ after₂ ∙ ap (after_user ts name) same in
      let v = after_role ts name user w in
      let at_role : (login_role ts user w₂).1 ≡ v =
        after₃ ∙ ap (λ x. (ts.get_role_details_by_id user.role_id x).1) at_user in
      let whole = e₁ ∙ e₂ ∙ e₃ ∙ ap (open_session ts request user role) at_role in
      let (code, header, drawn, stored) =
        open_session-ok request user role v
          (ap (λ (z : Outcome (Rpc View) (Rpc View × String) × ts.World). z.0) (sym whole) ∙ h) in
      record {
        request = request;
        parsed = parsed;
        user = user;
        known =
            ap (λ x. (ts.get_user_details name (ts.go_expired_session_clean_up x)).0) (sym same)
            ∙ known;
        password = password;
        role = role;
        assigned = ap (λ x. (ts.get_role_details_by_id user.role_id x).0) (sym at_user) ∙ assigned;
        login = login;
        stored =
            ap (λ (z : Outcome (Rpc View) (Rpc View × String) × ts.World). st.sessions z.1) whole
            ∙ stored
            ∙ ap (put_session (new_session id (drawn_token ts name user w) user role (ts.now v).0))
                (st.role-sessions user.role_id (after_user ts name w)
                  ∙ st.user-sessions name (ts.go_expired_session_clean_up w)
                  ∙ st.spawn-sessions w);
        drawn = drawn;
        code = code;
        header = header;
      }
