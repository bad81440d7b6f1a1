-- ===== src/Auth/Runs.antt =====
-- Any run of the operations of backend/internal/auth, and what they do to the table of users. The
-- checks and the statements of one operation run with no other operation between them here;
-- Auth/Races is about those that interleave. `EnsureUserWithPasswordHash` is called for an
-- administrator only (backend/internal/api/router.go).
pub mod Effects
pub mod Consequences
pub mod Guards
use podman_manager.Prelude.{ℕ, ◌≤◌, ◌≡◌, String, Option, List, [], ◌∷◌, ℤ}
use podman_manager.Auth.Database.{Role, role_admin, Database, Driver, admins}
use podman_manager.Auth.Users.{
  CreateUserRequest, create_user, update_user, delete_user, reset_password, change_password,
  verify_password, ensure_user_with_password_hash,
}
use podman_manager.Auth.Users.Admins.{IsAscending}
use podman_manager.Auth.Sessions.{
  create_session, get_session, delete_session, cleanup_expired_sessions,
}

pub data Operation : Type 0 where
  creates : ℕ → CreateUserRequest → Operation
  updates : ℕ → Option Role → Operation
  deletes : ℕ → Operation
  resets : ℕ → String → Operation
  changes : ℕ → String → String → Operation
  verifies : String → String → ℕ → ℕ → Operation
  bootstraps : ℕ → String → String → Operation
  opens : Option String → ℕ → ℤ → ℕ → ℕ → Operation
  reads : String → ℕ → Operation
  closes : String → Operation
  cleans : ℕ → Operation

unfoldable pub step : Driver → Database → Operation → Database
step d db (creates now req) = (create_user d now req db).0
step d db (updates id role) = (update_user d id role db).0
step d db (deletes id) = (delete_user d id db).0
step d db (resets id password) = (reset_password d id password db).0
step d db (changes id current password) = (change_password d id current password db).0
step d db (verifies name password now later) = (verify_password d name password now later db).0
step d db (bootstraps now name hash) =
    (ensure_user_with_password_hash d now name hash role_admin db).0
step d db (opens random user_id ttl now later) =
    (create_session d random user_id ttl now later db).0
step d db (reads token now) = (get_session d token now db).0
step d db (closes token) = (delete_session d token db).0
step d db (cleans now) = (cleanup_expired_sessions d now db).0

-- Each operation meets its own driver: the engine may fail differently every time.
unfoldable pub run : Database → List (Driver × Operation) → Database
run db [] = db
run db ((d, o) ∷ os) = run (step d db o) os
