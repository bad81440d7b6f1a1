-- ===== src/Api/Users.antt =====
-- backend/internal/api/users.go: the handlers of users and passwords. `id` is the text in the path,
-- and a payload is `none` if it does not decode. A time in a response is the time itself, not its
-- text. `ListUsers` is not here.
pub mod Authority
use podman_manager.Prelude.{
  ℕ, String, Bool, true, false, not, ◌&&◌, ◌||◌, Option, none, some, List, [], ◌∷◌, ◌==◌, Result,
  ok, err, nat_eq, trim_space, if◌then◌else◌,
}
use podman_manager.Auth.Database.{Role, role_admin, Database, Driver, Error, invalid_credentials}
use podman_manager.Auth.Users.{
  User, CreateUserRequest, valid_role, get_user, get_user_by_username, create_user, update_user,
  delete_user, reset_password, change_password,
}
use podman_manager.Auth.Sessions.{Session}
use podman_manager.Api.Access.{Response, write_error, write_json, success, user, Handler}
use podman_manager.Api.Checks.{
  Tables, parse_user_id, validate_username, validate_password, is_not_found_error,
  is_conflict_error, is_last_admin_error,
}

-- `requireAdmin`: nothing if the request may go on
unfoldable pub require_admin : Option Session → Option Response
require_admin none = some (write_error 403 "insufficient permissions")
require_admin (some current) =
    if not (current.role == role_admin)
    then some (write_error 403 "insufficient permissions")
    else none

-- a handler behind `requireAdmin`
unfoldable pub behind_admin : Handler → Handler
unfolding require_admin
behind_admin next current db = elim (require_admin current) [
  | some refused ↦ (db, refused)
  | none ↦ next current db
]

-- a handler behind `parseUserID`
unfoldable pub behind_id : String → (ℕ → Handler) → Handler
behind_id path_id next current db = elim (parse_user_id path_id) [
  | none ↦ (db, write_error 400 "invalid user id")
  | some id ↦ next id current db
]

-- the error of `CreateUser`
unfoldable pub create_failure : Driver → Error → Response
create_failure d e =
    if is_conflict_error d.lower_table e
    then write_error 409 "username already exists"
    else write_error 500 "failed to create user"

-- the last part of `handleCreateUser`
unfoldable pub create_new : Driver → ℕ → CreateUserRequest → Database → Database × Response
unfolding create_failure
create_new d now req db =
    let (db', created) = create_user d now req db in
    elim created [ err e ↦ (db', create_failure d e) | ok u ↦ (db', write_json 201 (user u)) ]

-- `handleCreateUser` from the checks of its payload on
unfoldable pub create_checked :
    Driver → Tables → ℕ → CreateUserRequest → Database → Database × Response
unfolding create_new
create_checked d tables now req db =
    let username = trim_space req.username in
    elim (validate_username tables username) [
      | some text ↦ (db, write_error 400 text)
      | none ↦ elim (validate_password req.password) [
        | some text ↦ (db, write_error 400 text)
        | none ↦
            if not (valid_role req.role)
            then (db, write_error 400 "invalid role")
            else elim (get_user_by_username d username db) [
              | ok _ ↦ (db, write_error 409 "username already exists")
              | err e ↦
                  if not (is_not_found_error d.lower_table e)
                  then (db, write_error 500 "failed to check username")
                  else create_new d now (record req { username = username }) db
            ]
      ]
    ]

unfoldable pub handle_create_user : Driver → Tables → ℕ → Option CreateUserRequest → Handler
unfolding behind_admin
handle_create_user d tables now payload = behind_admin (λ current db. elim payload [
  | none ↦ (db, write_error 400 "invalid user payload")
  | some req ↦ create_checked d tables now req db
])

-- the answer about one user
unfoldable pub show_user : Driver → ℕ → Database → Response
show_user d id db = elim (get_user d id db) [
  | ok u ↦ write_json 200 (user u)
  | err e ↦
      if is_not_found_error d.lower_table e
      then write_error 404 "user not found"
      else write_error 500 "failed to get user"
]

-- `current.Role == RoleAdmin || current.UserID == id`
abbrev pub may_read : ℕ → Option Session → Bool
may_read id none = false
may_read id (some current) = current.role == role_admin || nat_eq current.user_id id

unfoldable pub handle_get_user : Driver → String → Handler
unfolding behind_id show_user
handle_get_user d path_id = behind_id path_id (λ id current db.
    if not (may_read id current)
    then (db, write_error 403 "insufficient permissions")
    else (db, show_user d id db))

-- an error of `UpdateUser`, `DeleteUser`, `ResetPassword` or `ChangePassword`
unfoldable pub not_found_or : Driver → Response → Error → Response
not_found_or d other e =
    if is_not_found_error d.lower_table e then write_error 404 "user not found" else other

unfoldable pub last_admin_or : Driver → String → Response → Error → Response
unfolding not_found_or
last_admin_or d text other e =
    not_found_or d (if is_last_admin_error d.lower_table e then write_error 400 text else other) e

-- `handleUpdateUser` from the role on
unfoldable pub update_checked : Driver → ℕ → Role → Database → Database × Response
unfolding last_admin_or show_user
update_checked d id role db =
    if not (valid_role role)
    then (db, write_error 400 "invalid role")
    else let (db', updated) = update_user d id (some role) db in
      elim updated [
        | err e ↦ (
          db',
          last_admin_or d "cannot remove the last admin" (write_error 500 "failed to update user")
              e,
        )
        | ok _ ↦ (db', show_user d id db')
      ]

-- The inner option of a payload is its role, which may be nil.
unfoldable pub handle_update_user : Driver → String → Option (Option Role) → Handler
unfolding behind_admin behind_id
handle_update_user d path_id payload = behind_admin (
    behind_id path_id (λ id current db. elim payload [
      | none ↦ (db, write_error 400 "invalid user payload")
      | some none ↦ (db, write_error 400 "invalid role")
      | some (some role) ↦ update_checked d id role db
    ]))

unfoldable pub delete_checked : Driver → ℕ → Option Session → Database → Database × Response
unfolding last_admin_or
delete_checked d id current db =
    let own : Bool = elim current [ none ↦ false | some sess ↦ nat_eq sess.user_id id ] in
    if own
    then (db, write_error 403 "cannot delete current user")
    else let (db', deleted) = delete_user d id db in
      elim deleted [
        | err e ↦ (
          db',
          last_admin_or d "cannot delete the last admin" (write_error 500 "failed to delete user")
              e,
        )
        | ok _ ↦ (db', write_json 200 success)
      ]

unfoldable pub handle_delete_user : Driver → String → Handler
unfolding behind_admin behind_id
handle_delete_user d path_id = behind_admin (behind_id path_id (delete_checked d))

unfoldable pub reset_checked : Driver → ℕ → String → Database → Database × Response
unfolding not_found_or
reset_checked d id password db = elim (validate_password password) [
  | some text ↦ (db, write_error 400 text)
  | none ↦
      let (db', reset) = reset_password d id password db in
      elim reset [
        | err e ↦ (db', not_found_or d (write_error 500 "failed to reset password") e)
        | ok _ ↦ (db', write_json 200 success)
      ]
]

unfoldable pub handle_reset_password : Driver → String → Option String → Handler
unfolding behind_admin behind_id
handle_reset_password d path_id payload = behind_admin (
    behind_id path_id (λ id current db. elim payload [
      | none ↦ (db, write_error 400 "invalid password payload")
      | some password ↦ reset_checked d id password db
    ]))

-- `errors.Is(err, auth.ErrInvalidCredentials)`
abbrev pub is_invalid_credentials : Error → Bool
is_invalid_credentials invalid_credentials = true
is_invalid_credentials _ = false

unfoldable pub change_checked : Driver → ℕ → String → String → Database → Database × Response
unfolding not_found_or
change_checked d id current_password new_password db =
    if trim_space current_password == ""
    then (db, write_error 400 "current password is required")
    else elim (validate_password new_password) [
      | some text ↦ (db, write_error 400 text)
      | none ↦
          let (db', changed) = change_password d id current_password new_password db in
          elim changed [
            | ok _ ↦ (db', write_json 200 success)
            | err e ↦
                if is_invalid_credentials e
                then (db', write_error 422 "current password incorrect")
                else (db', not_found_or d (write_error 500 "failed to change password") e)
          ]
    ]

-- the payload is the current password and the new one
unfoldable pub handle_change_password : Driver → Option (String × String) → Handler
unfolding change_checked
handle_change_password d payload none db = (db, write_error 401 "authentication required")
handle_change_password d payload (some current) db = elim payload [
  | none ↦ (db, write_error 400 "invalid password payload")
  | some (current_password, new_password) ↦
      change_checked d current.user_id current_password new_password db
]
