-- ===== src/Auth/Runs/Guards.antt =====
-- What holds of the users after any run.
use podman_manager.Prelude.{
  ℕ, ◌≤◌, ◌≡◌, ◌≢◌, refl, sym, ◌∙◌, String, inl, inr, none, some, List, [], ◌∷◌, ok, nat_eq,
  Option-cases, Bool-cases, Result-cases, arith,
}
use podman_manager.Auth.Database.{
  Role, UserRow, SessionRow, Database, Driver, user_by_id, update_user_rows, delete_user_rows,
  admins, session_by_token,
}
use podman_manager.Auth.Users.{
  update_user, exec_update_role, delete_user, exec_delete, ensure_not_last_admin,
}
use podman_manager.Auth.Users.Admins.{IsAscending, with_role, ensure_not_last_admin_ok}
use podman_manager.Auth.Sessions.{Session, get_session, unless_expired, select_joined}
use podman_manager.Auth.Runs.{Operation, step, run}
use podman_manager.Auth.Runs.Effects.{step-Effect}
use podman_manager.Auth.Runs.Consequences.{Effect-IsAscending, Effect-Keeps, IsGone, Effect-IsGone}

run-IsAscending :
    (db : Database) (os : List (Driver × Operation))
    → IsAscending 0 db.users db.last_id
    → IsAscending 0 (run db os).users (run db os).last_id
unfolding run
run-IsAscending db [] v = v
run-IsAscending db ((d, o) ∷ os) v =
    run-IsAscending (step d db o) os (Effect-IsAscending db _ (step-Effect d db o) v)

-- Whatever users and sessions the operations create, change and delete, one operation after the
-- other, and wherever the engine fails: a database whose users stand in the order of their IDs, and
-- which has an administrator, keeps one, and its IDs stay distinct and in order.
pub run_keeps_an_admin :
    (db : Database) (os : List (Driver × Operation))
    → IsAscending 0 db.users db.last_id
    → 1 ≤ admins db.users
    → (1 ≤ admins (run db os).users) × IsAscending 0 (run db os).users (run db os).last_id
unfolding run
run_keeps_an_admin db [] v h = (h, v)
run_keeps_an_admin db ((d, o) ∷ os) v h =
    run_keeps_an_admin (step d db o) os (Effect-IsAscending db _ (step-Effect d db o) v)
      (Effect-Keeps db _ (step-Effect d db o) v h)

run-IsGone :
    (id : ℕ) (db : Database) (os : List (Driver × Operation)) → IsGone id db → IsGone id (run db os)
unfolding run
run-IsGone id db [] v = v
run-IsGone id db ((d, o) ∷ os) v =
    run-IsGone id (step d db o) os (Effect-IsGone id db _ (step-Effect d db o) v)

-- Who a session lets in is what the table of users says at that moment, whatever the session was
-- opened for, and only until it expires.
pub get_session_current :
    (d : Driver) (token : String) (now : ℕ) (db : Database) (session : Session)
    → (get_session d token now db).1 ≡ ok session
    → (u : UserRow) × (r : SessionRow) × (session_by_token token db.sessions ≡ some r)
      × (user_by_id r.user_id db.users ≡ some u)
      × (session.user_id ≡ r.user_id)
      × (session.role ≡ u.role)
      × (session.username ≡ u.username)
      × (now ≤ r.expires_at)
      × ((get_session d token now db).0 ≡ db)
unfolding get_session select_joined unless_expired
get_session_current d token now db session h =
    elim (Option-cases (session_by_token token db.sessions)) [
      | inl e ↦ absurd (ground arith)
      | inr (r, e) ↦ elim (Option-cases (user_by_id r.user_id db.users)) [
        | inl f ↦ absurd (ground arith)
        | inr (u, f) ↦
            (u, r, e, f, ground arith, ground arith, ground arith, ground arith, ground arith)
      ]
    ]

ascending-le : (lo hi : ℕ) (us : List UserRow) → IsAscending lo us hi → lo ≤ hi
ascending-le lo hi [] v = v
ascending-le lo hi (u ∷ us) v = omega (arith, v.0, ascending-le u.id hi us v.1)

user_by_id-ascending :
    (id lo hi : ℕ) (us : List UserRow) (u : UserRow)
    → IsAscending lo us hi
    → user_by_id id us ≡ some u
    → id ≤ hi
unfolding user_by_id
user_by_id-ascending id lo hi [] u v h = cc
user_by_id-ascending id lo hi (w ∷ us) u v h = elim (Bool-cases (nat_eq w.id id)) [
  | inl e ↦ ground (arith, ascending-le w.id hi us v.1)
  | inr e ↦ user_by_id-ascending id w.id hi us u v.1 (rw e at h)
]

user_by_id-delete_same :
    (id : ℕ) (us : List UserRow) → user_by_id id (delete_user_rows id us) ≡ none
unfolding user_by_id delete_user_rows
user_by_id-delete_same id [] = refl
user_by_id-delete_same id (u ∷ us) = ground (arith, user_by_id-delete_same id us)

delete_user_done :
    (d : Driver) (id : ℕ) (db : Database)
    → (delete_user d id db).1 ≡ ok tt
    → (ensure_not_last_admin d id db ≡ ok tt)
      × ((delete_user d id db).0.users ≡ delete_user_rows id db.users)
      × ((delete_user d id db).0.last_id ≡ db.last_id)
unfolding delete_user exec_delete
delete_user_done d id db h = elim (Result-cases (ensure_not_last_admin d id db)) [
  | inl (_, e) ↦ (e, ground arith, ground arith)
  | inr (x, e) ↦ absurd (ground arith)
]

delete_user-IsGone :
    (d : Driver) (id : ℕ) (db : Database)
    → IsAscending 0 db.users db.last_id
    → (delete_user d id db).1 ≡ ok tt
    → IsGone id (delete_user d id db).0
delete_user-IsGone d id db v h =
    let (checked, rows, last) = delete_user_done d id db h in
    let (u, found, _) = ensure_not_last_admin_ok d id db checked in
    record {
      used = rw last (user_by_id-ascending id 0 db.last_id db.users u v found);
      absent = rw rows (user_by_id-delete_same id db.users);
    }

update_user_done :
    (d : Driver) (id : ℕ) (role : Role) (db : Database)
    → (update_user d id (some role) db).1 ≡ ok tt
    → (update_user d id (some role) db).0.users ≡ update_user_rows id (with_role role) db.users
unfolding update_user exec_update_role
update_user_done d id role db h = ground arith

role-update_user_rows :
    (id : ℕ) (role : Role) (us : List UserRow) (u : UserRow)
    → user_by_id id (update_user_rows id (with_role role) us) ≡ some u
    → u.role ≡ role
unfolding user_by_id update_user_rows
role-update_user_rows id role [] u h = cc
role-update_user_rows id role (w ∷ us) u h = elim (Bool-cases (nat_eq w.id id)) [
  | inl e ↦ ground arith
  | inr e ↦ role-update_user_rows id role us u (rw (e, e) at h)
]

updated_role :
    (id j : ℕ) (role : Role) (us us' : List UserRow) (u : UserRow)
    → us' ≡ update_user_rows id (with_role role) us
    → j ≡ id
    → user_by_id j us' ≡ some u
    → u.role ≡ role
updated_role id j role us us' u rows same found =
    role-update_user_rows id role us u (rw (rows, same) at found)

-- In a database whose users stand in the order of their IDs: after a successful deletion no session
-- of that user lets anyone in again, not even when foreign keys are not enforced and the rows of
-- its sessions stay, and whatever operations follow, since no new user gets the ID.
pub delete_user_ends_sessions :
    (d : Driver) (id : ℕ) (db : Database) (os : List (Driver × Operation)) (d' : Driver)
    (token : String) (now : ℕ) (session : Session)
    → IsAscending 0 db.users db.last_id
    → (delete_user d id db).1 ≡ ok tt
    → (get_session d' token now (run (delete_user d id db).0 os)).1 ≡ ok session
    → session.user_id ≢ id
delete_user_ends_sessions d id db os d' token now session v done let_in same =
    let (u, r, _, found, own, _, _, _, _) = get_session_current d' token now _ session let_in in
    let gone = run-IsGone id _ os (delete_user-IsGone d id db v done) in
    cc (gone.absent, found, own, same)

-- A change of role takes effect at once, in the sessions that are open too.
pub update_user_at_once :
    (d : Driver) (id : ℕ) (role : Role) (db : Database) (d' : Driver) (token : String) (now : ℕ)
    (session : Session)
    → (update_user d id (some role) db).1 ≡ ok tt
    → (get_session d' token now (update_user d id (some role) db).0).1 ≡ ok session
    → session.user_id ≡ id
    → session.role ≡ role
update_user_at_once d id role db d' token now session done let_in same =
    let (u, r, _, found, own, now_role, _, _, _) =
      get_session_current d' token now _ session let_in in
    let rows = update_user_done d id role db done in
    now_role ∙ updated_role id r.user_id role db.users _ u rows (sym own ∙ same) found
