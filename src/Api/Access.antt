-- ===== src/Api/Access.antt =====
-- backend/internal/api/rbac.go, and auth.go: who a request is from, and what it may do. A handler
-- takes the session in the context of the request and the database, and returns the new database
-- beside its response. The statements of one request run with no other request between them.
pub mod Gates
pub mod Logins
use podman_manager.Prelude.{
  ℕ, String, Bool, true, false, not, ◌&&◌, ◌||◌, Option, none, some, List, [], ◌∷◌, ◌==◌, Result,
  ok, err, ℤ, if◌then◌else◌,
}
use podman_manager.Auth.Database.{Role, role_admin, role_operator, role_viewer, Database, Driver}
use podman_manager.Auth.Users.{User, verify_password}
use podman_manager.Auth.Sessions.{Session, get_session, create_session, delete_session}

pub record SessionResponse : Type 0 where
  pub enabled : Bool
  pub authenticated : Bool
  pub username : String
  pub role : String

pub data Body : Type 0 where
  error : String → Body
  success : Body
  session : SessionResponse → Body
  user : User → Body

pub data Cookie : Type 0 where
  unchanged cleared : Cookie
  set_to : String → Cookie

pub record Response : Type 0 where
  pub status : ℕ
  pub body : Body
  pub cookie : Cookie

abbrev pub write_error : ℕ → String → Response
write_error status text = record { status = status; body = error text; cookie = unchanged }

abbrev pub write_json : ℕ → Body → Response
write_json status body = record { status = status; body = body; cookie = unchanged }

abbrev pub Handler : Type 0
Handler = Option Session → Database → Database × Response

-- what the middleware reads of a request; `cookie` is the session cookie
pub record Request : Type 0 where
  pub is_options : Bool
  pub path : String
  pub cookie : Option String

abbrev pub has_role : Role → List Role → Bool
has_role role [] = false
has_role role (r ∷ rs) = role == r || has_role role rs

-- `withRBAC`
unfoldable pub with_rbac : List Role → Handler → Handler
with_rbac required_roles next none db = (db, write_error 401 "authentication required")
with_rbac [] next (some sess) db = next (some sess) db
with_rbac (r ∷ rs) next (some sess) db =
    if has_role sess.role (r ∷ rs)
    then next (some sess) db
    else (db, write_error 403 "insufficient permissions")

unfoldable pub is_public_path : String → Bool
is_public_path path =
    path == "/api/health"
    || path == "/api/version"
    || path == "/api/auth/session"
    || path == "/api/auth/login"
    || path == "/api/agent/install.sh"

-- the session of every request where authentication is off
abbrev pub nobody : Session
nobody = record { token = ""; user_id = 0; username = ""; role = role_admin; expires_at = 0 }

-- `withAuth`, at the time `now`
unfoldable pub with_auth : Driver → ℕ → Bool → Request → Handler → Database → Database × Response
with_auth d now enabled r next db =
    if r.is_options || is_public_path r.path
    then next none db
    else if not enabled
    then next (some nobody) db
    else elim r.cookie [
      | none ↦ (db, write_error 401 "authentication required")
      | some token ↦
          let (db', found) = get_session d token now db in
          elim found [
            | err e ↦ (db', write_error 401 "authentication required")
            | ok sess ↦ next (some sess) db'
          ]
    ]

-- `roleHandler`
unfoldable pub role_handler :
    Driver → ℕ → Bool → Request → List Role → Handler → Database → Database × Response
unfolding with_auth with_rbac
role_handler d now enabled r roles next db = with_auth d now enabled r (with_rbac roles next) db

-- `adminHandler`, `operatorHandler` and `viewerHandler`
abbrev pub admin_roles : List Role
admin_roles = role_admin ∷ []

abbrev pub operator_roles : List Role
operator_roles = role_operator ∷ role_admin ∷ []

abbrev pub viewer_roles : List Role
viewer_roles = role_viewer ∷ role_operator ∷ role_admin ∷ []

unfoldable pub handle_session : Driver → ℕ → Bool → Request → Database → Database × Response
handle_session d now enabled r db =
    let anonymous : SessionResponse = record {
      enabled = true;
      authenticated = false;
      username = "";
      role = "";
    } in
    if not enabled
    then (
      db,
      write_json 200 (
          session
            (record { enabled = false; authenticated = true; username = ""; role = role_admin })),
    )
    else elim r.cookie [
      | none ↦ (db, write_json 200 (session anonymous))
      | some token ↦
          let (db', found) = get_session d token now db in
          elim found [
            | err e ↦ (db', write_json 200 (session anonymous))
            | ok sess ↦ (
              db',
              write_json 200 (
                  session (record {
                    enabled = true;
                    authenticated = true;
                    username = sess.username;
                    role = sess.role;
                  })),
            )
          ]
    ]

-- The four readings of the clock of a login: two in `VerifyPassword`, one in `CreateSession` and one
-- in `GetSession`.
pub record Clock : Type 0 where
  pub verified : ℕ
  pub logged_in : ℕ
  pub opened : ℕ
  pub checked : ℕ

-- `payload` is the decoded name and password; `random` is what `generateToken` draws
unfoldable pub handle_login :
    Driver
    → Bool
    → ℤ
    → Clock
    → Option String
    → Option (String × String)
    → Database
    → Database × Response
handle_login d enabled ttl clock random payload db =
    if not enabled
    then (
      db,
      write_json 200 (
          session
            (record { enabled = false; authenticated = true; username = ""; role = role_admin })),
    )
    else elim payload [
      | none ↦ (db, write_error 400 "invalid login payload")
      | some (name, password) ↦
          let (db', verified) = verify_password d name password clock.verified clock.logged_in db in
          elim verified [
            | err e ↦ (db', write_error 401 "invalid username or password")
            | ok u ↦
                let (db'', created) =
                  create_session d random u.id ttl clock.opened clock.checked db' in
                elim created [
                  | err e ↦ (db'', write_error 500 "failed to create session")
                  | ok sess ↦ (
                    db'',
                    record {
                      status = 200;
                      body = session (record {
                        enabled = true;
                        authenticated = true;
                        username = u.username;
                        role = u.role;
                      });
                      cookie = set_to sess.token;
                    },
                  )
                ]
          ]
    ]

unfoldable pub handle_logout : Driver → Request → Database → Database × Response
handle_logout d r db =
    let out : Response = record { status = 200; body = success; cookie = cleared } in
    elim r.cookie [ none ↦ (db, out) | some token ↦ ((delete_session d token db).0, out) ]
