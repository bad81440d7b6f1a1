-- ===== src/Examples/AuthExamples.antt =====
-- backend/internal/auth at concrete inputs
use podman_manager.Prelude.{
  ◌≤◌, ◌≡◌, ◌≢◌, refl, false, none, some, List, [], ◌∷◌, Result, ok, pos, arith, ◌==◌, trim_space,
  trim_left, trim_right, trim_before, is_space,
}
use podman_manager.Auth.Database.{
  role_admin, role_viewer, UserRow, SessionRow, Database, Driver, Error, user_by_id, user_by_name,
  session_by_token, delete_user_rows, admins, rows_with_id,
}
use podman_manager.Auth.Users.{
  ensure_affected, ensure_not_last_admin, exec_delete, delete_user, check_password, verify_password,
  update_last_login,
}
use podman_manager.Auth.Users.Admins.{IsAscending}
use podman_manager.Auth.Sessions.{
  Session, get_session, select_joined, unless_expired, create_session,
}
use podman_manager.Auth.Runs.{Operation, deletes, updates, step, run}
use podman_manager.Auth.Runs.Guards.{
  run_keeps_an_admin, get_session_current, delete_user_ends_sessions,
}
use podman_manager.Auth.Sessions.Lifetime.{of_user, create_session_lets_in}
use podman_manager.Auth.Races.{two_deletions_leave_no_admin}

-- an engine that never fails, and a hash that is the password after "#"
abbrev pub d : Driver
d = record {
  fault = λ st. none;
  unique_text = "constraint failed: UNIQUE constraint failed: users.username";
  foreign_key_text = "constraint failed: FOREIGN KEY constraint failed";
  generate = λ password. some password;
  matches = λ hash password. hash == password;
  lower_table = λ c. c;
}

abbrev pub ann : UserRow
ann = record {
  id = 1;
  username = "ann";
  password_hash = "annpassword";
  role = role_admin;
  created_at = 5;
  last_login = none;
}

abbrev pub bob : UserRow
bob = record {
  id = 2;
  username = "bob";
  password_hash = "bobpassword";
  role = role_admin;
  created_at = 6;
  last_login = none;
}

abbrev pub row : SessionRow
row = record { token = "s2"; user_id = 2; expires_at = 90 }

abbrev pub row_ann : SessionRow
row_ann = record { token = "s1"; user_id = 1; expires_at = 90 }

abbrev pub db : Database
db = record {
  users = ann ∷ bob ∷ [];
  last_id = 2;
  sessions = row_ann ∷ row ∷ [];
  foreign_keys = false;
}

pub ordered : IsAscending 0 db.users db.last_id
ordered = (omega arith, (omega arith, omega arith))

abbrev requests : List (Driver × Operation)
requests = (d, updates 2 (some role_viewer)) ∷ (d, deletes 1) ∷ []

run_keeps_an_admin_example :
    (1 ≤ admins (run db requests).users)
    × IsAscending 0 (run db requests).users (run db requests).last_id
unfolding admins
run_keeps_an_admin_example = run_keeps_an_admin db requests ordered (omega arith)

abbrev session_of_bob : Session
session_of_bob = record {
  token = "s2";
  user_id = 2;
  username = "bob";
  role = role_admin;
  expires_at = 90;
}

get_session_current_example :
    (u : UserRow) × (r : SessionRow) × (session_by_token "s2" db.sessions ≡ some r)
    × (user_by_id r.user_id db.users ≡ some u)
    × (session_of_bob.user_id ≡ r.user_id)
    × (session_of_bob.role ≡ u.role)
    × (session_of_bob.username ≡ u.username)
    × (30 ≤ r.expires_at)
    × ((get_session d "s2" 30 db).0 ≡ db)
unfolding get_session select_joined unless_expired session_by_token user_by_id
get_session_current_example = get_session_current d "s2" 30 db session_of_bob refl

abbrev without_bob : Database
without_bob = (delete_user d 2 db).0

abbrev session_of_ann : Session
session_of_ann = record {
  token = "s1";
  user_id = 1;
  username = "ann";
  role = role_admin;
  expires_at = 90;
}

delete_user_ends_sessions_example : session_of_ann.user_id ≢ 2
unfolding run step delete_user exec_delete ensure_affected ensure_not_last_admin rows_with_id admins
    delete_user_rows get_session select_joined unless_expired session_by_token user_by_id
delete_user_ends_sessions_example =
    delete_user_ends_sessions d 2 db [] d "s1" 30 session_of_ann ordered refl refl

abbrev demoted : Session
demoted = record session_of_bob { role = role_viewer }

two_deletions_leave_no_admin_example :
    (ensure_not_last_admin d 1 db ≡ ok tt)
    × (ensure_not_last_admin d 2 db ≡ ok tt)
    × (admins (exec_delete d 2 (exec_delete d 1 db).0).0.users ≡ 0)
unfolding user_by_id admins
two_deletions_leave_no_admin_example =
    two_deletions_leave_no_admin d db 1 2 ann bob (λ st. refl) ordered refl refl refl refl refl refl

abbrev opened : Database × Result Error Session
opened = create_session d (some "s3") 2 (pos 50) 40 41 db

create_session_lets_in_example :
    (opened.1 ≡ ok (of_user "s3" bob 90))
    × (get_session d "s3" 90 opened.0 ≡ (opened.0, ok (of_user "s3" bob 90)))
unfolding session_by_token user_by_id
create_session_lets_in_example =
    create_session_lets_in d "s3" bob 2 (pos 50) 40 41 90 db refl refl refl refl (omega arith)
      (omega arith)

-- the login of a user whose name is padded
verify_password_test :
    (verify_password d " bob " "bobpassword" 50 51 db).1
    ≡ ok (record {
      id = 2;
      username = "bob";
      role = role_admin;
      created_at = 6;
      last_login = some 51;
    })
unfolding verify_password check_password update_last_login ensure_affected rows_with_id user_by_name
    trim_space trim_left trim_right trim_before is_space
verify_password_test = refl
