-- ===== src/Auth/Database.antt =====
-- backend/internal/auth/store.go: the tables of `migrate`, and what their SQL statements mean.
-- The statements are in the source; the engine that runs them is not. So each call of the store
-- takes a `Driver`: which of its statements the engine fails on, and with what text, and what bcrypt
-- computes. A statement that does not fail has the meaning that SQL gives it.
use podman_manager.Prelude.{
  ℕ, suc, String, Bool, Option, none, some, List, [], ◌∷◌, ◌==◌, Result, ok, err, nat_eq,
  if◌then◌else◌,
}

-- `type Role string`
abbrev pub Role : Type 0
Role = String

abbrev pub role_admin : Role
role_admin = "admin"

abbrev pub role_operator : Role
role_operator = "operator"

abbrev pub role_viewer : Role
role_viewer = "viewer"

pub record UserRow : Type 0 where
  pub id : ℕ
  pub username : String
  pub password_hash : String
  pub role : Role
  pub created_at : ℕ
  pub last_login : Option ℕ

pub record SessionRow : Type 0 where
  pub token : String
  pub user_id : ℕ
  pub expires_at : ℕ

-- `last_id` is the counter of AUTOINCREMENT, which never goes back. `foreign_keys` says whether the
-- engine enforces `FOREIGN KEY … ON DELETE CASCADE`: SQLite does so only if it is switched on for the
-- connection, which the program asks for in the DSN.
pub record Database : Type 0 where
  pub users : List UserRow
  pub last_id : ℕ
  pub sessions : List SessionRow
  pub foreign_keys : Bool

pub data Statement : Type 0 where
  insert_user select_user select_user_by_name update_role delete_row select_hash update_hash :
      Statement
  update_login select_password count_users upsert_user select_role count_admins : Statement
  insert_session select_session delete_token delete_expired rows_affected last_insert_id : Statement

pub record Driver : Type 0 where
  pub fault : Statement → Option String
  pub unique_text : String
  pub foreign_key_text : String
  pub generate : String → Option String
  pub matches : String → String → Bool
  pub lower_table : ℕ → ℕ

pub data Error : Type 0 where
  invalid_credentials user_not_found username_taken last_admin no_rows : Error
  username_required password_required new_password_required hashing_failed random_failed : Error
  invalid_role : Role → Error
  driver_failed : Statement → String → Error

-- the error of a statement that the engine fails on
abbrev pub run_statement : Driver → Statement → Result Error (Unit {0})
run_statement d st = elim (d.fault st) [ none ↦ ok tt | some text ↦ err (driver_failed st text) ]

unfoldable pub user_by_id : ℕ → List UserRow → Option UserRow
user_by_id id [] = none
user_by_id id (u ∷ us) = if nat_eq u.id id then some u else user_by_id id us

unfoldable pub user_by_name : String → List UserRow → Option UserRow
user_by_name name [] = none
user_by_name name (u ∷ us) = if u.username == name then some u else user_by_name name us

-- `UPDATE users SET … WHERE id = ?`
unfoldable pub update_user_rows : ℕ → (UserRow → UserRow) → List UserRow → List UserRow
update_user_rows id f [] = []
update_user_rows id f (u ∷ us) =
    let rest = update_user_rows id f us in if nat_eq u.id id then f u ∷ rest else u ∷ rest

-- `DELETE FROM users WHERE id = ?`
unfoldable pub delete_user_rows : ℕ → List UserRow → List UserRow
delete_user_rows id [] = []
delete_user_rows id (u ∷ us) =
    let rest = delete_user_rows id us in if nat_eq u.id id then rest else u ∷ rest

-- `SELECT COUNT(*) FROM users WHERE role = 'admin'`
unfoldable pub admins : List UserRow → ℕ
admins [] = 0
admins (u ∷ us) = if u.role == role_admin then suc (admins us) else admins us

-- `RowsAffected` of a statement with `WHERE id = ?`
unfoldable pub rows_with_id : ℕ → List UserRow → ℕ
rows_with_id id [] = 0
rows_with_id id (u ∷ us) = if nat_eq u.id id then suc (rows_with_id id us) else rows_with_id id us

unfoldable pub session_by_token : String → List SessionRow → Option SessionRow
session_by_token token [] = none
session_by_token token (r ∷ rs) = if r.token == token then some r else session_by_token token rs

-- `DELETE FROM sessions WHERE token = ?`
unfoldable pub delete_token_rows : String → List SessionRow → List SessionRow
delete_token_rows token [] = []
delete_token_rows token (r ∷ rs) =
    let rest = delete_token_rows token rs in if r.token == token then rest else r ∷ rest

-- the cascade of the foreign key
unfoldable pub delete_sessions_of : ℕ → List SessionRow → List SessionRow
delete_sessions_of id [] = []
delete_sessions_of id (r ∷ rs) =
    let rest = delete_sessions_of id rs in if nat_eq r.user_id id then rest else r ∷ rest
