-- ===== src/Auth/Errors.antt =====
-- The texts of the errors of backend/internal/auth.
use Prim.Native.String.{String, ◌++◌}
use podman_manager.Auth.Database.{
  Statement, insert_user, select_user, select_user_by_name, update_role, delete_row, select_hash,
  update_hash, update_login, select_password, count_users, upsert_user, select_role, count_admins,
  insert_session, select_session, delete_token, delete_expired, rows_affected, last_insert_id,
  Error, invalid_credentials, user_not_found, username_taken, last_admin, no_rows,
  username_required, password_required, new_password_required, hashing_failed, random_failed,
  invalid_role, driver_failed,
}

-- what each call puts before the text of the engine
unfoldable pub prefix_of : Statement → String
prefix_of insert_user = "creating user: "
prefix_of select_user = ""
prefix_of select_user_by_name = ""
prefix_of update_role = "updating user: "
prefix_of delete_row = "deleting user: "
prefix_of select_hash = "reading password hash: "
prefix_of update_hash = "resetting password: "
prefix_of update_login = "updating last login: "
prefix_of select_password = "reading user: "
prefix_of count_users = "counting users: "
prefix_of upsert_user = "ensuring config auth user: "
prefix_of select_role = "reading user role: "
prefix_of count_admins = "counting admin users: "
prefix_of insert_session = "creating session: "
prefix_of select_session = "reading session: "
prefix_of delete_token = "deleting session: "
prefix_of delete_expired = "cleaning up expired sessions: "
prefix_of rows_affected = "checking rows affected: "
prefix_of last_insert_id = "reading created user id: "

-- `err.Error()`; of the texts of bcrypt and of the random source only the prefix is here
unfoldable pub error_text : Error → String
unfolding prefix_of
error_text invalid_credentials = "invalid username or password"
error_text user_not_found = "user not found"
error_text username_taken = "username already exists"
error_text last_admin = "cannot remove the last admin user"
error_text no_rows = "sql: no rows in result set"
error_text username_required = "username is required"
error_text password_required = "password is required"
error_text new_password_required = "new password is required"
error_text hashing_failed = "hashing password: "
error_text random_failed = ""
error_text (invalid_role role) = "invalid role: " ++ role
error_text (driver_failed st text) = prefix_of st ++ text
