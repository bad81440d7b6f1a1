-- ===== src/Auth/Runs/Effects.antt =====
-- What one operation does to the table of users.
use podman_manager.Prelude.{
  ℕ, suc, ◌≤◌, ◌≡◌, refl, String, not, inl, inr, Option, some, List, [], ◌∷◌, ◌++◌, ◌==◌, ◌||◌,
  Option-cases, Bool-cases, Result-cases, arith, trim_space,
}
use podman_manager.Auth.Database.{
  Role, role_admin, UserRow, Database, Driver, insert_user, update_hash, update_login, upsert_user,
  user_by_id, update_user_rows, delete_user_rows, admins, user_by_name,
}
use podman_manager.Auth.Users.{
  CreateUserRequest, check_create_user, insert_user_row, create_user, update_user, delete_user,
  exec_update_hash, reset_password, check_change_password, change_password, update_last_login,
  check_password, verify_password, valid_role, upsert, ensure_user_with_password_hash,
}
use podman_manager.Auth.Users.Admins.{
  IsAscending, weight, with_role, unmatched, admins-update_user_rows, delete_user_cases,
  update_user_cases, admins-delete_user, admins-update_user,
}
use podman_manager.Auth.Sessions.{cleanup_expired_sessions}
use podman_manager.Auth.Runs.{
  Operation, creates, updates, deletes, resets, changes, verifies, bootstraps, opens, reads, closes,
  cleans, step,
}
use podman_manager.Auth.Sessions.Apart.{
  same_users-delete_session, same_users-get_session, same_users-create_session,
}

-- Where there was an administrator, there is one.
abbrev pub Keeps : Database → Database → Type 0
Keeps db db' = IsAscending 0 db.users db.last_id → 1 ≤ admins db.users → 1 ≤ admins db'.users

-- The rows are as they were, or one more is there under the next ID, or those of one ID have changed
-- and kept it, or those of one ID are gone.
pub data Effect (db db' : Database) : Type 0 where
  kept : db'.users ≡ db.users → db'.last_id ≡ db.last_id → Effect db db'
  added :
      (row : UserRow)
      → row.id ≡ suc db.last_id
      → db'.users ≡ db.users ++ row ∷ []
      → db'.last_id ≡ suc db.last_id
      → Effect db db'
  edited :
      (id : ℕ) (f : UserRow → UserRow)
      → ((u : UserRow) → (f u).id ≡ u.id)
      → db'.users ≡ update_user_rows id f db.users
      → db'.last_id ≡ db.last_id
      → Keeps db db'
      → Effect db db'
  dropped :
      (id : ℕ)
      → db'.users ≡ delete_user_rows id db.users
      → db'.last_id ≡ db.last_id
      → Keeps db db'
      → Effect db db'

-- An update whose role is no less than the one before leaves an administrator.
edit-Keeps :
    (id : ℕ) (f : UserRow → UserRow) (us : List UserRow) (hi : ℕ)
    → ((u : UserRow) → weight u.role ≤ weight (f u).role)
    → IsAscending 0 us hi
    → 1 ≤ admins us
    → 1 ≤ admins (update_user_rows id f us)
edit-Keeps id f us hi no_less v h = elim (Option-cases (user_by_id id us)) [
  | inl e ↦ rw (unmatched id f us e).0 h
  | inr (u, e) ↦ ground (arith, admins-update_user_rows id 0 hi f us u v e, no_less u)
]

exec_update_hash-Effect :
    (d : Driver) (id : ℕ) (hash : String) (db : Database)
    → Effect db (exec_update_hash d id hash db).0
unfolding exec_update_hash
exec_update_hash-Effect d id hash db = elim (Option-cases (d.fault update_hash)) [
  | inl e ↦
      rw (e, exec_update_hash)
        (edited id _ (λ u. refl) refl refl
          (edit-Keeps id (λ u. record u { password_hash = hash }) db.users db.last_id
            (λ u. omega arith)))
  | inr (x, e) ↦ rw (e, exec_update_hash) (kept refl refl)
]

reset_password-Effect :
    (d : Driver) (id : ℕ) (password : String) (db : Database)
    → Effect db (reset_password d id password db).0
unfolding reset_password
reset_password-Effect d id password db = elim (Bool-cases (password == "")) [
  | inl e ↦ rw e (kept refl refl)
  | inr e ↦ rw e (elim (Option-cases (d.generate password)) [
    | inl g ↦ rw g (kept refl refl)
    | inr (hash, g) ↦ rw g (exec_update_hash-Effect d id hash db)
  ])
]

change_password-Effect :
    (d : Driver) (id : ℕ) (current password : String) (db : Database)
    → Effect db (change_password d id current password db).0
unfolding change_password
change_password-Effect d id current password db =
    elim (Result-cases (check_change_password d id current password db)) [
      | inl (_, e) ↦ rw (e, change_password) (reset_password-Effect d id password db)
      | inr (x, e) ↦ rw (e, change_password) (kept refl refl)
    ]

update_last_login-Effect :
    (d : Driver) (id now : ℕ) (db : Database) → Effect db (update_last_login d id now db).0
unfolding update_last_login
update_last_login-Effect d id now db = elim (Option-cases (d.fault update_login)) [
  | inl e ↦
      rw (e, update_last_login)
        (edited id _ (λ u. refl) refl refl
          (edit-Keeps id (λ u. record u { last_login = some now }) db.users db.last_id
            (λ u. omega arith)))
  | inr (x, e) ↦ rw (e, update_last_login) (kept refl refl)
]

verify_password-Effect :
    (d : Driver) (name password : String) (now later : ℕ) (db : Database)
    → Effect db (verify_password d name password now later db).0
unfolding verify_password
verify_password-Effect d name password now later db =
    elim (Result-cases (check_password d name password db)) [
      | inl (u, e) ↦ rw (e, verify_password) (update_last_login-Effect d u.id now db)
      | inr (x, e) ↦ rw (e, verify_password) (kept refl refl)
    ]

insert_user_row-Effect :
    (d : Driver) (now : ℕ) (name hash : String) (role : Role) (db : Database)
    → Effect db (insert_user_row d now name hash role db).0
unfolding insert_user_row
insert_user_row-Effect d now name hash role db = elim (Option-cases (d.fault insert_user)) [
  | inr (x, e) ↦ rw (e, insert_user_row) (kept refl refl)
  | inl e ↦
      rw (e, insert_user_row)
        (elim (Option-cases (user_by_name name db.users)) [
          | inr (u, f) ↦ rw (f, insert_user_row) (kept refl refl)
          | inl f ↦ rw (f, insert_user_row) (added _ refl refl refl)
        ])
]

create_user-Effect :
    (d : Driver) (now : ℕ) (req : CreateUserRequest) (db : Database)
    → Effect db (create_user d now req db).0
unfolding create_user
create_user-Effect d now req db = elim (Result-cases (check_create_user d req)) [
  | inl ((name, hash, role), e) ↦
      rw (e, create_user) (insert_user_row-Effect d now name hash role db)
  | inr (x, e) ↦ rw (e, create_user) (kept refl refl)
]

update_user-Effect :
    (d : Driver) (id : ℕ) (o : Option Role) (db : Database) → Effect db (update_user d id o db).0
update_user-Effect d id o db = elim (update_user_cases d id o db) [
  | inl e ↦ rw e (kept refl refl)
  | inr (role, _, _, e) ↦ rw e (
      edited id (with_role role) (λ u. refl) refl refl
        (λ v h. rw e at (admins-update_user d id o db v h)))
]

delete_user-Effect : (d : Driver) (id : ℕ) (db : Database) → Effect db (delete_user d id db).0
delete_user-Effect d id db = elim (delete_user_cases d id db) [
  | inl e ↦ rw e (kept refl refl)
  | inr (e, _, rows, last) ↦
      rw e (dropped id rows last (λ v h. rw e at (admins-delete_user d id db v h)))
]

upsert-Effect :
    (now : ℕ) (name hash : String) (db : Database) → Effect db (upsert now name hash role_admin db)
unfolding upsert
upsert-Effect now name hash db = elim (Option-cases (user_by_name name db.users)) [
  | inr (u, f) ↦
      rw (f, upsert)
        (edited u.id _ (λ u. refl) refl refl
          (edit-Keeps u.id (λ v. record v { password_hash = hash; role = role_admin }) db.users
            db.last_id (λ v. ground arith)))
  | inl f ↦ rw (f, upsert) (added _ refl refl refl)
]

ensure-Effect :
    (d : Driver) (now : ℕ) (name hash : String) (db : Database)
    → Effect db (ensure_user_with_password_hash d now name hash role_admin db).0
unfolding ensure_user_with_password_hash
ensure-Effect d now name hash db =
    let name' = trim_space name in
    elim (Bool-cases (name' == "" || hash == "")) [
      | inl a ↦ rw (a, ensure_user_with_password_hash) (kept refl refl)
      | inr a ↦
          rw (a, ensure_user_with_password_hash)
            (elim (Bool-cases (not (valid_role role_admin))) [
              | inl b ↦ rw b (kept refl refl)
              | inr b ↦ rw b (elim (Option-cases (d.fault upsert_user)) [
                | inl e ↦ rw e (upsert-Effect now name' hash db)
                | inr (x, e) ↦ rw e (kept refl refl)
              ])
            ])
    ]

pub step-Effect : (d : Driver) (db : Database) (o : Operation) → Effect db (step d db o)
unfolding step
step-Effect d db (creates now req) = create_user-Effect d now req db
step-Effect d db (updates id role) = update_user-Effect d id role db
step-Effect d db (deletes id) = delete_user-Effect d id db
step-Effect d db (resets id password) = reset_password-Effect d id password db
step-Effect d db (changes id current password) = change_password-Effect d id current password db
step-Effect d db (verifies name password now later) =
    verify_password-Effect d name password now later db
step-Effect d db (bootstraps now name hash) = ensure-Effect d now name hash db
step-Effect d db (opens random user_id ttl now later) =
    let (a, b) = same_users-create_session d random user_id ttl now later db in kept a b
step-Effect d db (reads token now) = let (a, b) = same_users-get_session d token now db in kept a b
step-Effect d db (closes token) = let (a, b) = same_users-delete_session d token db in kept a b
step-Effect d db (cleans now) =
    unfold cleanup_expired_sessions in kept (ground arith) (ground arith)
