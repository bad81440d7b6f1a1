-- ===== src/Auth/Sessions.antt =====
-- backend/internal/auth/sessions.go
pub mod Lifetime
pub mod Apart
use podman_manager.Prelude.{
  ℕ, suc, ◌+◌, ◌-◌, String, Bool, true, false, not, Option, none, some, List, [], ◌∷◌, ◌++◌, ◌==◌,
  Result, ok, err, ◌>>=◌, ◌>>◌, ltb, nat_eq, ℤ, add, if◌then◌else◌,
}
use podman_manager.Auth.Database.{
  Role, UserRow, SessionRow, Database, Statement, insert_session, select_session, delete_token,
  delete_expired, rows_affected, Driver, Error, no_rows, random_failed, driver_failed,
  run_statement, user_by_id, session_by_token, delete_token_rows,
}

pub record Session : Type 0 where
  pub token : String
  pub user_id : ℕ
  pub username : String
  pub role : Role
  pub expires_at : ℕ

unfoldable pub delete_session : Driver → String → Database → Database × Result Error (Unit {0})
delete_session d token db =
    if token == "" then (db, ok tt) else elim (run_statement d delete_token) [
      | err e ↦ (db, err e)
      | ok _ ↦ (record db { sessions = delete_token_rows token db.sessions }, ok tt)
    ]

-- The `SELECT … FROM sessions JOIN users`: a session whose user is gone has no row in it.
unfoldable pub select_joined : String → Database → Option Session
select_joined token db = elim (session_by_token token db.sessions) [
  | none ↦ none
  | some r ↦ elim (user_by_id r.user_id db.users) [
    | none ↦ none
    | some u ↦ some (record {
      token = r.token;
      user_id = r.user_id;
      username = u.username;
      role = u.role;
      expires_at = r.expires_at;
    })
  ]
]

-- the part of `GetSession` after the `SELECT`
unfoldable pub unless_expired :
    Driver → String → ℕ → Session → Database → Database × Result Error Session
unless_expired d token now session db =
    if ltb session.expires_at now
    then (let (db', deleted) = delete_session d token db in (db', do deleted; err no_rows))
    else (db, ok session)

unfoldable pub get_session : Driver → String → ℕ → Database → Database × Result Error Session
get_session d token now db = elim (run_statement d select_session) [
  | err e ↦ (db, err e)
  | ok _ ↦ elim (select_joined token db) [
    | none ↦ (db, err no_rows)
    | some session ↦ unless_expired d token now session db
  ]
]

-- The `INSERT`: a token is a primary key, and a user must exist where foreign keys are enforced.
unfoldable pub insert_session_row : Driver → SessionRow → Database → Result Error Database
insert_session_row d row db = do
  run_statement d insert_session
  elim (session_by_token row.token db.sessions) [
    | some _ ↦ err (driver_failed insert_session d.unique_text)
    | none ↦ elim (user_by_id row.user_id db.users) [
      | some _ ↦ ok (record db { sessions = db.sessions ++ row ∷ [] })
      | none ↦
          if db.foreign_keys
          then err (driver_failed insert_session d.foreign_key_text)
          else ok (record db { sessions = db.sessions ++ row ∷ [] })
    ]
  ]

-- `random` is what `generateToken` draws; `now` and `later` are the readings of the clock in
-- `CreateSession` and in `GetSession`.
unfoldable pub create_session :
    Driver → Option String → ℕ → ℤ → ℕ → ℕ → Database → Database × Result Error Session
create_session d none user_id ttl now later db = (db, err random_failed)
create_session d (some token) user_id ttl now later db =
    elim (insert_session_row d
      (record { token = token; user_id = user_id; expires_at = add now ttl }) db) [
        | err e ↦ (db, err e)
        | ok db' ↦ get_session d token later db'
      ]

-- `DELETE FROM sessions WHERE expires_at < ?`
unfoldable pub delete_expired_rows : ℕ → List SessionRow → List SessionRow
delete_expired_rows now [] = []
delete_expired_rows now (r ∷ rs) =
    let rest = delete_expired_rows now rs in if ltb r.expires_at now then rest else r ∷ rest

unfoldable pub expired_rows : ℕ → List SessionRow → ℕ
expired_rows now [] = 0
expired_rows now (r ∷ rs) = let n = expired_rows now rs in if ltb r.expires_at now then suc n else n

unfoldable pub cleanup_expired_sessions : Driver → ℕ → Database → Database × Result Error ℕ
cleanup_expired_sessions d now db = elim (run_statement d delete_expired) [
  | err e ↦ (db, err e)
  | ok _ ↦ (
    record db { sessions = delete_expired_rows now db.sessions },
    do run_statement d rows_affected; ok (expired_rows now db.sessions),
  )
]
