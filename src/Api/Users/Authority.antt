-- ===== src/Api/Users/Authority.antt =====
-- What the handlers let whom do.
use podman_manager.Prelude.{
  ℕ, ◌≤◌, ◌≡◌, refl, String, false, ◌⊎◌, inl, inr, Option, none, some, List, [], ◌∷◌, ◌==◌, ok,
  nat_eq, trim_space, Option-cases, Bool-cases, Result-cases, arith, true,
}
use podman_manager.Auth.Database.{
  role_admin, Database, Driver, UserRow, update_hash, user_by_id, update_user_rows,
  delete_user_rows, admins,
}
use podman_manager.Auth.Users.{
  change_password, check_change_password, reset_password, exec_update_hash, delete_user,
}
use podman_manager.Auth.Users.Admins.{IsAscending, admins-delete_user, delete_user_cases}
use podman_manager.Auth.Sessions.{Session}
use podman_manager.Api.Checks.{parse_user_id, validate_password}
use podman_manager.Api.Users.{
  require_admin, behind_admin, behind_id, handle_delete_user, delete_checked,
  handle_change_password, change_checked,
}

-- a new hash in the rows of one ID
abbrev with_hash : String → UserRow → UserRow
with_hash hash u = record u { password_hash = hash }

-- A change of password has left the database as it was, or has put a hash of the new one in.
change_password_cases :
    (d : Driver) (id : ℕ) (current_password new_password : String) (db : Database)
    → ((change_password d id current_password new_password db).0 ≡ db)
      ⊎ ((hash : String) × (check_change_password d id current_password new_password db ≡ ok tt)
          × (d.generate new_password ≡ some hash)
          × ((change_password d id current_password new_password db).0
              ≡ record db { users = update_user_rows id (with_hash hash) db.users }))
unfolding change_password reset_password exec_update_hash
change_password_cases d id current_password new_password db =
    elim (Result-cases (check_change_password d id current_password new_password db)) [
      | inr (x, e) ↦ inl (rw (e, change_password) refl)
      | inl (_, e) ↦ elim (Bool-cases (new_password == "")) [
        | inl b ↦ inl (ground arith)
        | inr b ↦ elim (Option-cases (d.generate new_password)) [
          | inl g ↦ inl (ground arith)
          | inr (hash, g) ↦ elim (Option-cases (d.fault update_hash)) [
            | inr (x, f) ↦ inl (ground arith)
            | inl f ↦ inr (hash, e, g, ground arith)
          ]
        ]
      ]
    ]

user_by_id-update_other :
    (id j : ℕ) (f : UserRow → UserRow) (us : List UserRow)
    → ((u : UserRow) → (f u).id ≡ u.id)
    → nat_eq id j ≡ false
    → user_by_id j (update_user_rows id f us) ≡ user_by_id j us
unfolding user_by_id update_user_rows
user_by_id-update_other id j f [] same n = refl
user_by_id-update_other id j f (u ∷ us) same n =
    ground (arith, same u, user_by_id-update_other id j f us same n)

-- the rows without their hashes
unfoldable pub forget_hashes : List UserRow → List UserRow
forget_hashes [] = []
forget_hashes (u ∷ us) = with_hash "" u ∷ forget_hashes us

forget_hashes-update :
    (id : ℕ) (hash : String) (us : List UserRow)
    → forget_hashes (update_user_rows id (with_hash hash) us) ≡ forget_hashes us
unfolding forget_hashes update_user_rows
forget_hashes-update id hash [] = refl
forget_hashes-update id hash (u ∷ us) = ground (arith, forget_hashes-update id hash us)

change_checked_cases :
    (d : Driver) (id : ℕ) (old new : String) (db : Database)
    → ((change_checked d id old new db).0 ≡ db)
      ⊎ ((change_checked d id old new db).0 ≡ (change_password d id old new db).0)
unfolding change_checked
change_checked_cases d id old new db = elim (Bool-cases (trim_space old == "")) [
  | inl b ↦ inl (ground arith)
  | inr b ↦ elim (Option-cases (validate_password new)) [
    | inr (text, v) ↦ inl (ground arith)
    | inl v ↦ inr (ground arith)
  ]
]

-- A request to change the password leaves the sessions and the last ID as they are, every row of a
-- user but its hash, role included, and also the hash in the rows of all users but that of its session.
pub change_password_own :
    (d : Driver) (payload : Option (String × String)) (current : Session) (other : ℕ)
    (db : Database)
    → nat_eq current.user_id other ≡ false
    → let db' = (handle_change_password d payload (some current) db).0 in
      (db' ≡ record db { users = db'.users })
      × (forget_hashes db'.users ≡ forget_hashes db.users)
      × (user_by_id other db'.users ≡ user_by_id other db.users)
unfolding handle_change_password
change_password_own d none current other db n = (refl, refl, refl)
change_password_own d (some (old, new)) current other db n =
    elim (change_checked_cases d current.user_id old new db) [
      | inl e ↦ rw e (refl, refl, refl)
      | inr e ↦ rw e (elim (change_password_cases d current.user_id old new db) [
        | inl f ↦ rw f (refl, refl, refl)
        | inr (hash, _, _, f) ↦ rw f (
          refl,
          forget_hashes-update current.user_id hash db.users,
          user_by_id-update_other current.user_id other (with_hash hash) db.users (λ u. refl) n,
        )
      ])
    ]

-- A deletion has left the database as it was, or has been asked by an administrator for another user.
handle_delete_user_cases :
    (d : Driver) (path_id : String) (current : Session) (db : Database)
    → ((handle_delete_user d path_id (some current) db).0 ≡ db)
      ⊎ ((id : ℕ) × ((current.role == role_admin) ≡ true)
          × (parse_user_id path_id ≡ some id)
          × (nat_eq current.user_id id ≡ false)
          × ((handle_delete_user d path_id (some current) db).0 ≡ (delete_user d id db).0))
unfolding handle_delete_user behind_admin behind_id delete_checked require_admin
handle_delete_user_cases d path_id current db = elim (Bool-cases (current.role == role_admin)) [
  | inr r ↦ inl (ground arith)
  | inl r ↦ elim (Option-cases (parse_user_id path_id)) [
    | inl p ↦ inl (ground arith)
    | inr (id, p) ↦ elim (Bool-cases (nat_eq current.user_id id)) [
      | inl own ↦ inl (ground arith)
      | inr other ↦ inr (id, r, p, other, ground arith)
    ]
  ]
]

user_by_id-delete_other :
    (id j : ℕ) (us : List UserRow)
    → nat_eq j id ≡ false
    → user_by_id j (delete_user_rows id us) ≡ user_by_id j us
unfolding user_by_id delete_user_rows
user_by_id-delete_other id j [] n = refl
user_by_id-delete_other id j (u ∷ us) n = ground (arith, user_by_id-delete_other id j us n)

-- In a database whose users stand in the order of their IDs, and which has an administrator, a request
-- for a deletion leaves an administrator, and the row of the user who asked as it was; it changes
-- nothing unless it is an administrator's, and then of the users' rows only those with the ID of the
-- path.
pub handle_delete_user_keeps :
    (d : Driver) (path_id : String) (current : Session) (db : Database)
    → IsAscending 0 db.users db.last_id
    → 1 ≤ admins db.users
    → let db' = (handle_delete_user d path_id (some current) db).0 in
      (1 ≤ admins db'.users)
      × (user_by_id current.user_id db'.users ≡ user_by_id current.user_id db.users)
      × ((db' ≡ db)
          ⊎ ((id : ℕ) × ((current.role == role_admin) ≡ true)
              × (parse_user_id path_id ≡ some id)
              × (db'.users ≡ delete_user_rows id db.users)))
handle_delete_user_keeps d path_id current db v h =
    elim (handle_delete_user_cases d path_id current db) [
      | inl e ↦ rw e (h, refl, inl refl)
      | inr (id, admin, parsed, other, e) ↦ elim (delete_user_cases d id db) [
        | inl same ↦ rw (e, same) (h, refl, inl refl)
        | inr (same, _, rows, _) ↦ (
          rw e (admins-delete_user d id db v h),
          rw (e, same, rows) (user_by_id-delete_other id current.user_id db.users other),
          rw (e, same) (inr (id, admin, parsed, rows)),
        )
      ]
    ]
