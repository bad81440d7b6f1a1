-- ===== src/Auth/Runs/Consequences.antt =====
-- What one operation keeps, whatever it is.
use podman_manager.Prelude.{ℕ, ◌≤◌, ◌≡◌, refl, false, none, List, [], ◌∷◌, ◌++◌, nat_eq, arith}
use podman_manager.Auth.Database.{UserRow, Database, user_by_id, update_user_rows, delete_user_rows}
use podman_manager.Auth.Users.Admins.{
  IsAscending, delete_user_rows-IsAscending, update_user_rows-IsAscending, append-IsAscending,
  admins-append,
}
use podman_manager.Auth.Runs.Effects.{Effect, kept, added, edited, dropped, Keeps}

-- The IDs stay in order and below the counter.
pub Effect-IsAscending :
    (db db' : Database)
    → Effect db db'
    → IsAscending 0 db.users db.last_id
    → IsAscending 0 db'.users db'.last_id
Effect-IsAscending db db' (kept a b) v = rw (a, b) v
Effect-IsAscending db db' (added row new a b) v =
    rw (a, b) (append-IsAscending 0 db.last_id db.users row new v)
Effect-IsAscending db db' (edited id f same a b _) v =
    rw (a, b) (update_user_rows-IsAscending id 0 db.last_id f db.users same v)
Effect-IsAscending db db' (dropped id a b _) v =
    rw (a, b) (delete_user_rows-IsAscending id 0 db.last_id db.users v)

-- The ID was given out, and no user has it.
pub record IsGone (id : ℕ) (db : Database) : Type 0 where
  pub used : id ≤ db.last_id
  pub absent : user_by_id id db.users ≡ none

user_by_id-append :
    (id : ℕ) (us : List UserRow) (row : UserRow)
    → nat_eq row.id id ≡ false
    → user_by_id id us ≡ none
    → user_by_id id (us ++ row ∷ []) ≡ none
unfolding user_by_id
user_by_id-append id [] row n h = rw n refl
user_by_id-append id (u ∷ us) row n h = ground (arith, user_by_id-append id us row n)

user_by_id-update_user_rows :
    (id j : ℕ) (f : UserRow → UserRow) (us : List UserRow)
    → ((u : UserRow) → (f u).id ≡ u.id)
    → user_by_id id us ≡ none
    → user_by_id id (update_user_rows j f us) ≡ none
unfolding user_by_id update_user_rows
user_by_id-update_user_rows id j f [] same h = refl
user_by_id-update_user_rows id j f (u ∷ us) same h =
    ground (arith, same u, user_by_id-update_user_rows id j f us same)

user_by_id-delete_user_rows :
    (id j : ℕ) (us : List UserRow)
    → user_by_id id us ≡ none
    → user_by_id id (delete_user_rows j us) ≡ none
unfolding user_by_id delete_user_rows
user_by_id-delete_user_rows id j [] h = refl
user_by_id-delete_user_rows id j (u ∷ us) h = ground (arith, user_by_id-delete_user_rows id j us)

-- A user that is gone stays gone: the counter of IDs never goes back.
pub Effect-IsGone : (id : ℕ) (db db' : Database) → Effect db db' → IsGone id db → IsGone id db'
Effect-IsGone id db db' (kept a b) v = record { used = rw b v.used; absent = rw a v.absent }
Effect-IsGone id db db' (added row new a b) v = record {
  used = rw b (omega (arith, v.used));
  absent = rw a (user_by_id-append id db.users row (ground (arith, v.used)) v.absent);
}
Effect-IsGone id db db' (edited j f same a b _) v = record {
  used = rw b v.used;
  absent = rw a (user_by_id-update_user_rows id j f db.users same v.absent);
}
Effect-IsGone id db db' (dropped j a b _) v = record {
  used = rw b v.used;
  absent = rw a (user_by_id-delete_user_rows id j db.users v.absent);
}

pub Effect-Keeps : (db db' : Database) → Effect db db' → Keeps db db'
Effect-Keeps db db' (kept a b) v h = rw a h
Effect-Keeps db db' (added row new a b) v h = rw a (omega (arith, admins-append db.users row))
Effect-Keeps db db' (edited id f same a b keeps) v h = keeps v h
Effect-Keeps db db' (dropped id a b keeps) v h = keeps v h
