-- ===== src/Auth/Users.antt =====
-- backend/internal/auth/users.go. A method takes the driver's behaviour during the call, and returns
-- the new database beside its result.
pub mod Admins
use podman_manager.Prelude.{
  ℕ, zero, suc, ◌+◌, ◌-◌, String, Bool, true, false, not, ◌&&◌, ◌||◌, Option, none, some, List, [],
  ◌∷◌, ◌++◌, ◌==◌, Result, ok, err, ◌>>=◌, ◌>>◌, leb, nat_eq, trim_space, contains_fold,
  if◌then◌else◌,
}
use podman_manager.Auth.Database.{
  Role, role_admin, role_operator, role_viewer, UserRow, Database, Statement, insert_user,
  select_user, select_user_by_name, update_role, delete_row, select_hash, update_hash, update_login,
  select_password, count_users, upsert_user, select_role, count_admins, rows_affected,
  last_insert_id, Driver, Error, invalid_credentials, user_not_found, username_taken, last_admin,
  username_required, password_required, new_password_required, hashing_failed, invalid_role,
  driver_failed, run_statement, user_by_id, user_by_name, update_user_rows, delete_user_rows,
  admins, rows_with_id, delete_sessions_of,
}

-- What the `SELECT`s read of a row
pub record User : Type 0 where
  pub id : ℕ
  pub username : String
  pub role : Role
  pub created_at : ℕ
  pub last_login : Option ℕ

abbrev pub to_user : UserRow → User
to_user u = record {
  id = u.id;
  username = u.username;
  role = u.role;
  created_at = u.created_at;
  last_login = u.last_login;
}

pub record CreateUserRequest : Type 0 where
  pub username : String
  pub password : String
  pub role : Role

unfoldable pub valid_role : Role → Bool
valid_role role = role == role_admin || role == role_operator || role == role_viewer

-- `ensureAffected(result, "user not found")`
unfoldable pub ensure_affected : Driver → ℕ → Result Error (Unit {0})
ensure_affected d rows = do
  run_statement d rows_affected
  if nat_eq rows 0 then err user_not_found else ok tt

-- `GetUser`, and `GetUserByUsername`
unfoldable pub get_user : Driver → ℕ → Database → Result Error User
get_user d id db = do
  run_statement d select_user
  elim (user_by_id id db.users) [ none ↦ err user_not_found | some u ↦ ok (to_user u) ]

unfoldable pub get_user_by_username : Driver → String → Database → Result Error User
get_user_by_username d username db = do
  run_statement d select_user_by_name
  elim (user_by_name (trim_space username) db.users) [
    | none ↦ err user_not_found
    | some u ↦ ok (to_user u)
  ]

-- the error of a failed `INSERT`
unfoldable pub insert_error : Driver → String → Error
insert_error d text =
    if contains_fold d.lower_table text "unique"
    then username_taken
    else driver_failed insert_user text

-- The `INSERT` of a user: the engine may fail, the name may be taken, or the row is there under the
-- next ID. `now` is CURRENT_TIMESTAMP.
unfoldable pub insert_user_row :
    Driver → ℕ → String → String → Role → Database → Database × Result Error ℕ
unfolding insert_error
insert_user_row d now username hash role db = elim (d.fault insert_user) [
  | some text ↦ (db, err (insert_error d text))
  | none ↦ elim (user_by_name username db.users) [
    | some _ ↦ (db, err (insert_error d d.unique_text))
    | none ↦
        let row : UserRow = record {
          id = suc db.last_id;
          username = username;
          password_hash = hash;
          role = role;
          created_at = now;
          last_login = none;
        } in
        (record db { users = db.users ++ row ∷ []; last_id = suc db.last_id }, ok (suc db.last_id))
  ]
]

-- the part of `CreateUser` that checks the request: the name, the hash and the role to store
unfoldable pub check_create_user :
    Driver → CreateUserRequest → Result Error (String × String × Role)
check_create_user d req =
    let username = trim_space req.username in
    let role : Role = if req.role == "" then role_viewer else req.role in
    if username == ""
    then err username_required
    else if req.password == ""
    then err password_required
    else if not (valid_role role)
    then err (invalid_role role)
    else elim (d.generate req.password) [
      | none ↦ err hashing_failed
      | some hash ↦ ok (username, hash, role)
    ]

unfoldable pub create_user :
    Driver → ℕ → CreateUserRequest → Database → Database × Result Error User
create_user d now req db = elim (check_create_user d req) [
  | err e ↦ (db, err e)
  | ok (username, hash, role) ↦
      let (db', inserted) = insert_user_row d now username hash role db in
      (db', do id ← inserted; run_statement d last_insert_id; get_user d id db')
]

unfoldable pub ensure_not_last_admin : Driver → ℕ → Database → Result Error (Unit {0})
ensure_not_last_admin d id db = do
  run_statement d select_role
  elim (user_by_id id db.users) [
    | none ↦ err user_not_found
    | some u ↦ if not (u.role == role_admin) then ok tt else do
      run_statement d count_admins
      if leb (admins db.users) 1 then err last_admin else ok tt
  ]

-- `UPDATE users SET role = ?` and the check of its result
unfoldable pub exec_update_role : Driver → ℕ → Role → Database → Database × Result Error (Unit {0})
unfolding ensure_affected
exec_update_role d id role db = elim (run_statement d update_role) [
  | err e ↦ (db, err e)
  | ok _ ↦ (
    record db { users = update_user_rows id (λ u. record u { role = role }) db.users },
    ensure_affected d (rows_with_id id db.users),
  )
]

-- the checks of `UpdateUser` on a role
unfoldable pub check_update_user : Driver → ℕ → Role → Database → Result Error (Unit {0})
check_update_user d id role db =
    if not (valid_role role)
    then err (invalid_role role)
    else if not (role == role_admin)
    then ensure_not_last_admin d id db
    else ok tt

-- `none` is a nil role
unfoldable pub update_user :
    Driver → ℕ → Option Role → Database → Database × Result Error (Unit {0})
update_user d id none db = (db, ok tt)
update_user d id (some role) db = elim (check_update_user d id role db) [
  | err e ↦ (db, err e)
  | ok _ ↦ exec_update_role d id role db
]

unfoldable pub exec_delete : Driver → ℕ → Database → Database × Result Error (Unit {0})
unfolding ensure_affected
exec_delete d id db = elim (run_statement d delete_row) [
  | err e ↦ (db, err e)
  | ok _ ↦ (
    record db {
      users = delete_user_rows id db.users;
      sessions = if db.foreign_keys then delete_sessions_of id db.sessions else db.sessions;
    },
    ensure_affected d (rows_with_id id db.users),
  )
]

unfoldable pub delete_user : Driver → ℕ → Database → Database × Result Error (Unit {0})
delete_user d id db = elim (ensure_not_last_admin d id db) [
  | err e ↦ (db, err e)
  | ok _ ↦ exec_delete d id db
]

-- `UPDATE users SET password_hash = ?`
unfoldable pub exec_update_hash :
    Driver → ℕ → String → Database → Database × Result Error (Unit {0})
unfolding ensure_affected
exec_update_hash d id hash db = elim (run_statement d update_hash) [
  | err e ↦ (db, err e)
  | ok _ ↦ (
    record db { users = update_user_rows id (λ u. record u { password_hash = hash }) db.users },
    ensure_affected d (rows_with_id id db.users),
  )
]

unfoldable pub reset_password : Driver → ℕ → String → Database → Database × Result Error (Unit {0})
reset_password d id new_password db =
    if new_password == "" then (db, err new_password_required) else elim (d.generate new_password) [
      | none ↦ (db, err hashing_failed)
      | some hash ↦ exec_update_hash d id hash db
    ]

-- the part of `ChangePassword` before `ResetPassword`
unfoldable pub check_change_password :
    Driver → ℕ → String → String → Database → Result Error (Unit {0})
check_change_password d id current_password new_password db =
    if new_password == "" then err new_password_required else do
      run_statement d select_hash
      elim (user_by_id id db.users) [
        | none ↦ err user_not_found
        | some u ↦
            if d.matches u.password_hash current_password then ok tt else err invalid_credentials
      ]

unfoldable pub change_password :
    Driver → ℕ → String → String → Database → Database × Result Error (Unit {0})
change_password d id current_password new_password db =
    elim (check_change_password d id current_password new_password db) [
      | err e ↦ (db, err e)
      | ok _ ↦ reset_password d id new_password db
    ]

unfoldable pub update_last_login : Driver → ℕ → ℕ → Database → Database × Result Error (Unit {0})
unfolding ensure_affected
update_last_login d id now db = elim (run_statement d update_login) [
  | err e ↦ (db, err e)
  | ok _ ↦ (
    record db { users = update_user_rows id (λ u. record u { last_login = some now }) db.users },
    ensure_affected d (rows_with_id id db.users),
  )
]

-- the part of `VerifyPassword` before `UpdateLastLogin`
unfoldable pub check_password : Driver → String → String → Database → Result Error UserRow
check_password d username password db = do
  run_statement d select_password
  elim (user_by_name (trim_space username) db.users) [
    | none ↦ err invalid_credentials
    | some u ↦ if d.matches u.password_hash password then ok u else err invalid_credentials
  ]

-- `now` and `later` are its two readings of the clock
unfoldable pub verify_password :
    Driver → String → String → ℕ → ℕ → Database → Database × Result Error User
verify_password d username password now later db = elim (check_password d username password db) [
  | err e ↦ (db, err e)
  | ok u ↦
      let (db', updated) = update_last_login d u.id now db in
      (db', do updated; ok (record (to_user u) { last_login = some later }))
]

unfoldable pub length_of : List UserRow → ℕ
length_of [] = 0
length_of (u ∷ us) = suc (length_of us)

unfoldable pub user_count : Driver → Database → Result Error ℕ
unfolding length_of
user_count d db = do run_statement d count_users; ok (length_of db.users)

-- `INSERT … ON CONFLICT(username) DO UPDATE SET password_hash = …, role = …`
unfoldable pub upsert : ℕ → String → String → Role → Database → Database
upsert now username hash role db = elim (user_by_name username db.users) [
  | some u ↦ record db {
    users = update_user_rows u.id (λ v. record v { password_hash = hash; role = role }) db.users;
  }
  | none ↦
      let row : UserRow = record {
        id = suc db.last_id;
        username = username;
        password_hash = hash;
        role = role;
        created_at = now;
        last_login = none;
      } in
      record db { users = db.users ++ row ∷ []; last_id = suc db.last_id }
]

unfoldable pub ensure_user_with_password_hash :
    Driver → ℕ → String → String → Role → Database → Database × Result Error (Unit {0})
ensure_user_with_password_hash d now username password_hash role db =
    let name = trim_space username in
    let role' : Role = if role == "" then role_admin else role in
    if name == "" || password_hash == ""
    then (db, ok tt)
    else if not (valid_role role')
    then (db, err (invalid_role role'))
    else elim (run_statement d upsert_user) [
      | err e ↦ (db, err e)
      | ok _ ↦ (upsert now name password_hash role' db, ok tt)
    ]
