-- ===== src/Auth/Sessions/Apart.antt =====
-- Sessions and users are different tables.
use podman_manager.Prelude.{
  ℕ, ◌≡◌, refl, ◌∙◌, String, inl, inr, Option, none, some, ok, Result-cases, arith, ℤ, add,
}
use podman_manager.Auth.Database.{SessionRow, Database, Driver}
use podman_manager.Auth.Sessions.{
  create_session, insert_session_row, get_session, unless_expired, delete_session,
}

-- No operation on sessions changes the users.
pub same_users-delete_session :
    (d : Driver) (token : String) (db : Database)
    → ((delete_session d token db).0.users ≡ db.users)
      × ((delete_session d token db).0.last_id ≡ db.last_id)
unfolding delete_session
same_users-delete_session d token db = (ground arith, ground arith)

pub same_users-get_session :
    (d : Driver) (token : String) (now : ℕ) (db : Database)
    → ((get_session d token now db).0.users ≡ db.users)
      × ((get_session d token now db).0.last_id ≡ db.last_id)
unfolding get_session unless_expired
same_users-get_session d token now db =
    let (a, b) = same_users-delete_session d token db in (ground (arith, a), ground (arith, b))

same_users-insert_session_row :
    (d : Driver) (row : SessionRow) (db db' : Database)
    → insert_session_row d row db ≡ ok db'
    → (db'.users ≡ db.users) × (db'.last_id ≡ db.last_id)
unfolding insert_session_row
same_users-insert_session_row d row db db' h = (ground arith, ground arith)

abbrev new_row : String → ℕ → ℤ → ℕ → SessionRow
new_row token user_id ttl now = record {
  token = token;
  user_id = user_id;
  expires_at = add now ttl;
}

pub same_users-create_session :
    (d : Driver) (random : Option String) (user_id : ℕ) (ttl : ℤ) (now later : ℕ) (db : Database)
    → ((create_session d random user_id ttl now later db).0.users ≡ db.users)
      × ((create_session d random user_id ttl now later db).0.last_id ≡ db.last_id)
unfolding create_session
same_users-create_session d none user_id ttl now later db = (refl, refl)
same_users-create_session d (some token) user_id ttl now later db =
    elim (Result-cases (insert_session_row d (new_row token user_id ttl now) db)) [
      | inl (db', e) ↦
          let (a, b) = same_users-insert_session_row d (new_row token user_id ttl now) db db' e in
          let (a', b') = same_users-get_session d token later db' in
          rw (e, create_session) (a' ∙ a, b' ∙ b)
      | inr (x, e) ↦ rw (e, create_session) (refl, refl)
    ]
