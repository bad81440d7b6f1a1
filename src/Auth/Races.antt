-- ===== src/Auth/Races.antt =====
-- The checks and the statements of `DeleteUser` and `UpdateUser` are separate statements outside any
-- transaction, so that those of two requests interleave.
use podman_manager.Prelude.{
  ℕ, ◌≤◌, ◌≡◌, refl, ◌∙◌, false, none, some, List, [], ◌∷◌, ok, nat_eq, arith, eq_iff,
}
use podman_manager.Auth.Database.{
  role_admin, UserRow, Database, Driver, Statement, user_by_id, delete_user_rows, admins,
}
use podman_manager.Auth.Users.{ensure_not_last_admin, exec_delete}
use podman_manager.Auth.Users.Admins.{
  IsAscending, delete_user_rows-IsAscending, admins-delete_user_rows,
}

-- The engine fails on nothing.
abbrev pub IsSound : Driver → Type 0
IsSound d = (st : Statement) → d.fault st ≡ none

user_by_id-other :
    (id j : ℕ) (us : List UserRow)
    → nat_eq id j ≡ false
    → user_by_id j (delete_user_rows id us) ≡ user_by_id j us
unfolding user_by_id delete_user_rows
user_by_id-other id j [] n = refl
user_by_id-other id j (u ∷ us) n = ground (arith, user_by_id-other id j us n)

exec_delete_sound :
    (d : Driver) (id : ℕ) (db : Database)
    → IsSound d
    → ((exec_delete d id db).0.users ≡ delete_user_rows id db.users)
unfolding exec_delete
exec_delete_sound d id db sound = ground (arith, sound Statement.delete_row)

ensure_sound :
    (d : Driver) (id : ℕ) (u : UserRow) (db : Database)
    → IsSound d
    → user_by_id id db.users ≡ some u
    → 2 ≤ admins db.users
    → ensure_not_last_admin d id db ≡ ok tt
unfolding ensure_not_last_admin
ensure_sound d id u db sound found enough =
    ground (arith, sound Statement.select_role, sound Statement.count_admins)

-- Two deletions that interleave remove the last two administrators: where there are just two, and
-- the engine fails on nothing, both checks pass before either deletion runs, and after both
-- deletions there is none.
pub two_deletions_leave_no_admin :
    (d : Driver) (db : Database) (a b : ℕ) (u v : UserRow)
    → IsSound d
    → IsAscending 0 db.users db.last_id
    → nat_eq a b ≡ false
    → user_by_id a db.users ≡ some u
    → user_by_id b db.users ≡ some v
    → u.role ≡ role_admin
    → v.role ≡ role_admin
    → admins db.users ≡ 2
    → (ensure_not_last_admin d a db ≡ ok tt)
      × (ensure_not_last_admin d b db ≡ ok tt)
      × (admins (exec_delete d b (exec_delete d a db).0).0.users ≡ 0)
two_deletions_leave_no_admin d db a b u v sound ordered other at_a at_b ru rv two =
    let first = exec_delete_sound d a db sound in
    let rows = exec_delete_sound d b (exec_delete d a db).0 sound in
    let one = admins-delete_user_rows a 0 db.last_id db.users u ordered at_a in
    let left = delete_user_rows-IsAscending a 0 db.last_id db.users ordered in
    let still = user_by_id-other a b db.users other ∙ at_b in
    let zero = admins-delete_user_rows b 0 db.last_id (delete_user_rows a db.users) v left still in
    (
      ensure_sound d a u db sound at_a (omega (arith, two)),
      ensure_sound d b v db sound at_b (omega (arith, two)),
      rw (rows, first)
          (ground (arith, one, zero, eq_iff u.role role_admin, eq_iff v.role role_admin)),
    )
