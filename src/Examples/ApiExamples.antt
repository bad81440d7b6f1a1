-- ===== src/Examples/ApiExamples.antt =====
-- backend/internal/api at concrete inputs
use podman_manager.Prelude.{
  ◌≤◌, ◌≡◌, refl, String, true, false, ◌⊎◌, none, some, [], ◌∷◌, codes, ℕ, ◌==◌, arith,
}
use podman_manager.Prelude.{Option, pos, trim_space, trim_left, trim_right, trim_before, is_space}
use podman_manager.Auth.Database.{user_by_name, rows_with_id, update_user_rows, delete_user_rows}
use podman_manager.Auth.Users.{verify_password, check_password, update_last_login, ensure_affected}
use podman_manager.Auth.Sessions.{
  create_session, insert_session_row, get_session, select_joined, unless_expired,
}
use podman_manager.Api.Access.{Clock, handle_login}
use podman_manager.Api.Access.Logins.{handle_login_checks}
use podman_manager.Examples.AuthExamples.{d, db, ordered}
use podman_manager.Auth.Database.{
  role_admin, role_viewer, UserRow, SessionRow, Database, user_by_id, session_by_token, admins,
}
use podman_manager.Auth.Users.{CreateUserRequest}
use podman_manager.Auth.Sessions.{Session}
use podman_manager.Api.Access.{Request, Handler, write_json, success, has_role, role_handler}
use podman_manager.Api.Access.Gates.{Refused, role_handler_gate}
use podman_manager.Api.Checks.{
  Tables, parse_user_id, parse_unsigned, parse_digits, validate_password, bytes,
}
use podman_manager.Api.Users.{handle_delete_user, handle_change_password}
use podman_manager.Api.Users.Authority.{
  forget_hashes, change_password_own, handle_delete_user_keeps,
}

abbrev r : Request
r = record { is_options = false; path = "/api/admin/users"; cookie = some "s2" }

abbrev next : Handler
next current db = (db, write_json 200 success)

role_handler_gate_example :
    Refused 401 db (role_handler d 30 true r (role_admin ∷ []) next db)
    ⊎ (Refused 403 db (role_handler d 30 true r (role_admin ∷ []) next db))
    ⊎ ((token : String) × (u : UserRow) × (row : SessionRow) × (sess : Session) × (r.cookie
          ≡ some token)
        × (session_by_token token db.sessions ≡ some row)
        × (30 ≤ row.expires_at)
        × (user_by_id row.user_id db.users ≡ some u)
        × (sess.user_id ≡ row.user_id)
        × (sess.role ≡ u.role)
        × (has_role u.role (role_admin ∷ []) ≡ true)
        × (role_handler d 30 true r (role_admin ∷ []) next db ≡ next (some sess) db))
role_handler_gate_example = role_handler_gate d 30 r role_admin [] next db

abbrev viewer : Session
viewer = record { token = "s9"; user_id = 2; username = "bob"; role = role_viewer; expires_at = 90 }

abbrev admin : Session
admin = record { token = "s1"; user_id = 1; username = "ann"; role = role_admin; expires_at = 90 }

abbrev tables : Tables
tables = record { is_letter = λ c. true; is_digit = λ c. false }

abbrev req : CreateUserRequest
req = record { username = "eve"; password = "evepassword"; role = role_admin }

abbrev changed : Database
changed = (handle_change_password d (some ("bobpassword", "newpassword")) (some viewer) db).0

change_password_own_example :
    (changed ≡ record db { users = changed.users })
    × (forget_hashes changed.users ≡ forget_hashes db.users)
    × (user_by_id 1 changed.users ≡ user_by_id 1 db.users)
change_password_own_example =
    change_password_own d (some ("bobpassword", "newpassword")) viewer 1 db refl

abbrev deleted : Database
deleted = (handle_delete_user d "2" (some admin) db).0

handle_delete_user_keeps_example :
    (1 ≤ admins deleted.users)
    × (user_by_id 1 deleted.users ≡ user_by_id 1 db.users)
    × ((deleted ≡ db)
        ⊎ ((id : ℕ) × ((admin.role == role_admin) ≡ true)
            × (parse_user_id "2" ≡ some id)
            × (deleted.users ≡ delete_user_rows id db.users)))
unfolding admins
handle_delete_user_keeps_example = handle_delete_user_keeps d "2" admin db ordered (omega arith)

parse_user_id_test : parse_user_id "+42" ≡ some 42
unfolding parse_user_id parse_unsigned parse_digits codes
parse_user_id_test = refl

validate_password_test : validate_password "pässwör" ≡ none
unfolding validate_password bytes codes
validate_password_test = refl

abbrev clock : Clock
clock = record { verified = 50; logged_in = 51; opened = 52; checked = 53 }

abbrev payload : Option (String × String)
payload = some ("bob ", "bobpassword")

abbrev drawn : Option String
drawn = some "s3"

handle_login_checks_example :
    (name : String) × (password : String) × (w : UserRow) × (payload ≡ some (name, password))
    × (user_by_name (trim_space name) db.users ≡ some w)
    × (d.matches w.password_hash password ≡ true)
    × (drawn ≡ some "s3")
unfolding handle_login verify_password check_password update_last_login ensure_affected rows_with_id
    update_user_rows create_session insert_session_row get_session select_joined unless_expired
    session_by_token user_by_id user_by_name trim_space trim_left trim_right trim_before is_space
handle_login_checks_example = handle_login_checks d (pos 100) clock drawn payload db "s3" refl
