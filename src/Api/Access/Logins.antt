-- ===== src/Api/Access/Logins.antt =====
-- What a login gives out, and to whom.
use podman_manager.Prelude.{
  ℕ, ◌≡◌, refl, sym, ap, ◌∙◌, String, true, inl, inr, Option, none, some, List, [], ◌∷◌, ok, ℤ, add,
  eq_iff, trim_space, Option-cases, Bool-cases, Result-cases, arith,
}
use podman_manager.Auth.Database.{
  Database, Driver, UserRow, SessionRow, user_by_name, user_by_id, session_by_token,
}
use podman_manager.Auth.Users.{User, check_password, verify_password}
use podman_manager.Auth.Sessions.{
  Session, create_session, insert_session_row, get_session, select_joined, unless_expired,
}
use podman_manager.Api.Access.{set_to, Clock, handle_login}

check_password_ok :
    (d : Driver) (name password : String) (db : Database) (w : UserRow)
    → check_password d name password db ≡ ok w
    → (user_by_name (trim_space name) db.users ≡ some w)
      × (d.matches w.password_hash password ≡ true)
unfolding check_password
check_password_ok d name password db w h =
    elim (Option-cases (user_by_name (trim_space name) db.users)) [
      | inl e ↦ absurd (ground arith)
      | inr (u, e) ↦ elim (Bool-cases (d.matches u.password_hash password)) [
        | inr m ↦ absurd (ground arith)
        | inl m ↦ let same : u ≡ w = ground arith in (rw same at e, rw same at m)
      ]
    ]

verify_password_ok :
    (d : Driver) (name password : String) (now later : ℕ) (db : Database) (u : User)
    → (verify_password d name password now later db).1 ≡ ok u
    → (w : UserRow) × (check_password d name password db ≡ ok w)
unfolding verify_password
verify_password_ok d name password now later db u h =
    elim (Result-cases (check_password d name password db)) [
      | inl (w, e) ↦ (w, e)
      | inr (x, e) ↦ absurd (ground arith)
    ]

session_by_token-own :
    (token : String) (rs : List SessionRow) (r : SessionRow)
    → session_by_token token rs ≡ some r
    → r.token ≡ token
unfolding session_by_token
session_by_token-own token [] r h = cc
session_by_token-own token (x ∷ rs) r h =
    ground (arith, eq_iff x.token token, session_by_token-own token rs r)

get_session-token :
    (d : Driver) (token : String) (now : ℕ) (db : Database) (sess : Session)
    → (get_session d token now db).1 ≡ ok sess
    → sess.token ≡ token
unfolding get_session select_joined unless_expired
get_session-token d token now db sess h = elim (Option-cases (session_by_token token db.sessions)) [
  | inl e ↦ absurd (ground arith)
  | inr (r, e) ↦
      let own = session_by_token-own token db.sessions r e in
      elim (Option-cases (user_by_id r.user_id db.users)) [
        | inl f ↦ absurd (ground arith)
        | inr (u, f) ↦ ground arith
      ]
]

create_session-token :
    (d : Driver) (random : Option String) (id : ℕ) (ttl : ℤ) (now later : ℕ) (db : Database)
    (sess : Session)
    → (create_session d random id ttl now later db).1 ≡ ok sess
    → random ≡ some sess.token
unfolding create_session
create_session-token d none id ttl now later db sess h = cc
create_session-token d (some token) id ttl now later db sess h =
    let row : SessionRow = record { token = token; user_id = id; expires_at = add now ttl } in
    elim (Result-cases (insert_session_row d row db)) [
      | inr (x, e) ↦ absurd (cc (rw (e, create_session) at h))
      | inl (db', e) ↦
          ap some (sym (get_session-token d token later db' sess (rw (e, create_session) at h)))
    ]

-- Where authentication is on, a login gives a session out only to a request that names a user of the
-- table, spaces around the name aside, with a password that matches the user's hash, and the cookie is
-- the token that was drawn for it.
pub handle_login_checks :
    (d : Driver) (ttl : ℤ) (clock : Clock) (random : Option String)
    (payload : Option (String × String)) (db : Database) (token : String)
    → (handle_login d true ttl clock random payload db).1.cookie ≡ set_to token
    → (name : String) × (password : String) × (w : UserRow) × (payload ≡ some (name, password))
      × (user_by_name (trim_space name) db.users ≡ some w)
      × (d.matches w.password_hash password ≡ true)
      × (random ≡ some token)
unfolding handle_login
handle_login_checks d ttl clock random none db token h = cc
handle_login_checks d ttl clock random (some (name, password)) db token h =
    let verified = verify_password d name password clock.verified clock.logged_in db in
    elim (Result-cases verified.1) [
      | inr (x, e) ↦ absurd (cc (rw (e, handle_login) at h))
      | inl (u, e) ↦
          let (w, checked) =
            verify_password_ok d name password clock.verified clock.logged_in db u e in
          let (found, matched) = check_password_ok d name password db w checked in
          elim (Result-cases
            (create_session d random u.id ttl clock.opened clock.checked verified.0).1) [
              | inr (x, f) ↦ absurd (ground arith)
              | inl (sess, f) ↦
                  let drawn =
                    create_session-token d random u.id ttl clock.opened clock.checked verified.0
                      sess f in
                  (name, password, w, refl, found, matched, drawn ∙ ap some (ground arith))
            ]
    ]
