-- ===== src/Auth/Users/Admins.antt =====
-- How many administrators the operations on users leave.
use podman_manager.Prelude.{
  ℕ, suc, ◌+◌, ◌≤◌, ◌<◌, ◌≡◌, refl, sym, ap, true, false, ◌⊎◌, inl, inr, Option, none, some, List,
  [], ◌∷◌, ◌++◌, ◌==◌, ok, nat_eq, if◌then◌else◌, Option-cases, Bool-cases, Result-cases, arith,
}
use podman_manager.Auth.Database.{
  Role, role_admin, UserRow, Database, Driver, update_role, delete_row, user_by_id,
  update_user_rows, delete_user_rows, admins,
}
use podman_manager.Auth.Users.{
  ensure_not_last_admin, exec_delete, delete_user, exec_update_role, check_update_user, update_user,
}

-- The rows stand in the order of their IDs, which are above `lo`, and at most `hi`.
abbrev pub IsAscending : ℕ → List UserRow → ℕ → Type 0
IsAscending lo [] hi = lo ≤ hi
IsAscending lo (u ∷ us) hi = (lo < u.id) × IsAscending u.id us hi

-- 1 for an administrator
abbrev pub weight : Role → ℕ
weight role = if role == role_admin then 1 else 0

-- No row has an ID that is not above the lower bound.
pub absent :
    (id lo hi : ℕ) (us : List UserRow) (f : UserRow → UserRow)
    → IsAscending lo us hi
    → id ≤ lo
    → (user_by_id id us ≡ none) × (update_user_rows id f us ≡ us) × (delete_user_rows id us ≡ us)
unfolding user_by_id update_user_rows delete_user_rows
absent id lo hi [] f v h = (refl, refl, refl)
absent id lo hi (u ∷ us) f v h =
    let low : id ≤ u.id = omega (arith, v.0) in
    let rest = absent id u.id hi us f v.1 low in
    let other : nat_eq u.id id ≡ false = ground arith in
    rw other (rest.0, ap (λ ws. u ∷ ws) rest.1, ap (λ ws. u ∷ ws) rest.2)

IsAscending-lower :
    (lo lo' hi : ℕ) (us : List UserRow) → lo' ≤ lo → IsAscending lo us hi → IsAscending lo' us hi
IsAscending-lower lo lo' hi [] h v = omega arith
IsAscending-lower lo lo' hi (u ∷ us) h v = (omega (arith, v.0), v.1)

-- A row is there once at most.
unique :
    (id lo hi : ℕ) (u : UserRow) (us : List UserRow) (f : UserRow → UserRow)
    → IsAscending lo (u ∷ us) hi
    → nat_eq u.id id ≡ true
    → (update_user_rows id f us ≡ us) × (delete_user_rows id us ≡ us)
unique id lo hi u us f v e =
    let rest = absent id u.id hi us f v.1 (ground arith) in (rest.1, rest.2)

pub delete_user_rows-IsAscending :
    (id lo hi : ℕ) (us : List UserRow)
    → IsAscending lo us hi
    → IsAscending lo (delete_user_rows id us) hi
unfolding delete_user_rows
delete_user_rows-IsAscending id lo hi [] v = v
delete_user_rows-IsAscending id lo hi (u ∷ us) v =
    let rest = delete_user_rows-IsAscending id u.id hi us v.1 in
    elim (Bool-cases (nat_eq u.id id)) [
      | inl e ↦ rw e (IsAscending-lower u.id lo hi _ (omega (arith, v.0)) rest)
      | inr e ↦ rw e (v.0, rest)
    ]

pub update_user_rows-IsAscending :
    (id lo hi : ℕ) (f : UserRow → UserRow) (us : List UserRow)
    → ((u : UserRow) → (f u).id ≡ u.id)
    → IsAscending lo us hi
    → IsAscending lo (update_user_rows id f us) hi
unfolding update_user_rows
update_user_rows-IsAscending id lo hi f [] same v = v
update_user_rows-IsAscending id lo hi f (u ∷ us) same v =
    let rest = update_user_rows-IsAscending id u.id hi f us same v.1 in
    elim (Bool-cases (nat_eq u.id id)) [
      | inl e ↦ rw e (rw same (v.0, rest))
      | inr e ↦ rw e (v.0, rest)
    ]

pub append-IsAscending :
    (lo hi : ℕ) (us : List UserRow) (row : UserRow)
    → row.id ≡ suc hi
    → IsAscending lo us hi
    → IsAscending lo (us ++ row ∷ []) (suc hi)
append-IsAscending lo hi [] row new v = (omega arith, omega arith)
append-IsAscending lo hi (u ∷ us) row new v = (v.0, append-IsAscending u.id hi us row new v.1)

pub admins-append :
    (us : List UserRow) (row : UserRow) → admins (us ++ row ∷ []) ≡ admins us + weight row.role
unfolding admins
admins-append [] row = ground arith
admins-append (u ∷ us) row = ground (arith, admins-append us row)

pub admins-delete_user_rows :
    (id lo hi : ℕ) (us : List UserRow) (u : UserRow)
    → IsAscending lo us hi
    → user_by_id id us ≡ some u
    → admins (delete_user_rows id us) + weight u.role ≡ admins us
unfolding admins user_by_id delete_user_rows
admins-delete_user_rows id lo hi [] u v h = cc
admins-delete_user_rows id lo hi (w ∷ us) u v h = elim (Bool-cases (nat_eq w.id id)) [
  | inl e ↦ ground (arith, e, ap admins (unique id lo hi w us (λ x. x) v e).1, rw e at h)
  | inr e ↦ ground (arith, e, admins-delete_user_rows id w.id hi us u v.1 (rw e at h))
]

pub admins-update_user_rows :
    (id lo hi : ℕ) (f : UserRow → UserRow) (us : List UserRow) (u : UserRow)
    → IsAscending lo us hi
    → user_by_id id us ≡ some u
    → admins (update_user_rows id f us) + weight u.role ≡ admins us + weight (f u).role
unfolding admins user_by_id update_user_rows
admins-update_user_rows id lo hi f [] u v h = cc
admins-update_user_rows id lo hi f (w ∷ us) u v h = elim (Bool-cases (nat_eq w.id id)) [
  | inl e ↦
      let same : w ≡ u = ground (arith, rw e at h) in
      rw (e, sym same) (ground (arith, ap admins (unique id lo hi w us f v e).0))
  | inr e ↦ ground (arith, e, admins-update_user_rows id w.id hi f us u v.1 (rw e at h))
]

-- The check passes for a user that is there, and is not the last administrator.
pub ensure_not_last_admin_ok :
    (d : Driver) (id : ℕ) (db : Database)
    → ensure_not_last_admin d id db ≡ ok tt
    → (u : UserRow) × (user_by_id id db.users ≡ some u)
      × (weight u.role < admins db.users ⊎ weight u.role ≡ 0)
unfolding ensure_not_last_admin
ensure_not_last_admin_ok d id db h = elim (Option-cases (user_by_id id db.users)) [
  | inl e ↦ absurd (ground arith)
  | inr (u, e) ↦ (u, e, ground arith)
]

-- A deletion has left the rows as they were, or has dropped a row that the check allows to drop.
pub delete_user_cases :
    (d : Driver) (id : ℕ) (db : Database)
    → ((delete_user d id db).0 ≡ db)
      ⊎ (((delete_user d id db).0 ≡ (exec_delete d id db).0)
          × (ensure_not_last_admin d id db ≡ ok tt)
          × ((exec_delete d id db).0.users ≡ delete_user_rows id db.users)
          × ((exec_delete d id db).0.last_id ≡ db.last_id))
unfolding delete_user exec_delete
delete_user_cases d id db = elim (Result-cases (ensure_not_last_admin d id db)) [
  | inl (tt, e) ↦ elim (Option-cases (d.fault delete_row)) [
    | inl f ↦ inr (ground arith, e, ground arith, ground arith)
    | inr (x, f) ↦ inl (ground arith)
  ]
  | inr (x, e) ↦ inl (ground arith)
]

pub admins-delete_user :
    (d : Driver) (id : ℕ) (db : Database)
    → IsAscending 0 db.users db.last_id
    → 1 ≤ admins db.users
    → 1 ≤ admins (delete_user d id db).0.users
admins-delete_user d id db v h = elim (delete_user_cases d id db) [
  | inl e ↦ rw e h
  | inr (e, c, rows, _) ↦
      let (u, found, allowed) = ensure_not_last_admin_ok d id db c in
      rw (e, rows)
        (ground (arith, admins-delete_user_rows id 0 db.last_id db.users u v found, allowed))
]

-- A statement on an ID that no row has changes nothing.
pub unmatched :
    (id : ℕ) (f : UserRow → UserRow) (us : List UserRow)
    → user_by_id id us ≡ none
    → (update_user_rows id f us ≡ us) × (delete_user_rows id us ≡ us)
unfolding user_by_id update_user_rows delete_user_rows
unmatched id f [] h = (refl, refl)
unmatched id f (u ∷ us) h = elim (Bool-cases (nat_eq u.id id)) [
  | inl e ↦ absurd (ground arith)
  | inr e ↦
      let rest = unmatched id f us (rw e at h) in
      rw e (ap (λ ws. u ∷ ws) rest.0, ap (λ ws. u ∷ ws) rest.1)
]

-- A role other than administrator passes the check of an update only if that of a deletion passes.
check_update_user_ok :
    (d : Driver) (id : ℕ) (role : Role) (db : Database)
    → check_update_user d id role db ≡ ok tt
    → (role == role_admin) ≡ false
    → ensure_not_last_admin d id db ≡ ok tt
unfolding check_update_user
check_update_user_ok d id role db h r = ground arith

abbrev pub with_role : Role → UserRow → UserRow
with_role role u = record u { role = role }

-- An update has left the database as it was, or has set a role that the check allows.
pub update_user_cases :
    (d : Driver) (id : ℕ) (o : Option Role) (db : Database)
    → ((update_user d id o db).0 ≡ db)
      ⊎ ((role : Role) × (o ≡ some role)
          × (check_update_user d id role db ≡ ok tt)
          × ((update_user d id o db).0
              ≡ record db { users = update_user_rows id (with_role role) db.users }))
unfolding update_user exec_update_role
update_user_cases d id none db = inl refl
update_user_cases d id (some role) db = elim (Result-cases (check_update_user d id role db)) [
  | inl (tt, e) ↦ elim (Option-cases (d.fault update_role)) [
    | inl f ↦ inr (role, refl, e, ground arith)
    | inr (x, f) ↦ inl (ground arith)
  ]
  | inr (x, e) ↦ inl (ground arith)
]

pub admins-update_user :
    (d : Driver) (id : ℕ) (o : Option Role) (db : Database)
    → IsAscending 0 db.users db.last_id
    → 1 ≤ admins db.users
    → 1 ≤ admins (update_user d id o db).0.users
admins-update_user d id o db v h = elim (update_user_cases d id o db) [
  | inl e ↦ rw e h
  | inr (role, _, c, e) ↦ rw e (elim (Option-cases (user_by_id id db.users)) [
    | inl gone ↦ rw (unmatched id (with_role role) db.users gone).0 h
    | inr (u, found) ↦ elim (Bool-cases (role == role_admin)) [
      | inl r ↦
          ground
            (arith, admins-update_user_rows id 0 db.last_id (with_role role) db.users u v found)
      | inr r ↦
          let (w, found', allowed) =
            ensure_not_last_admin_ok d id db (check_update_user_ok d id role db c r) in
          ground (
            arith,
            admins-update_user_rows id 0 db.last_id (with_role role) db.users w v found',
            allowed,
          )
    ]
  ])
]
