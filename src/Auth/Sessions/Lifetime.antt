-- ===== src/Auth/Sessions/Lifetime.antt =====
-- From the opening of a session to its end.
use podman_manager.Prelude.{
  ℕ, ◌≤◌, ◌<◌, ◌≡◌, refl, String, false, ◌⊎◌, inl, inr, none, some, List, [], ◌∷◌, ◌++◌, ◌==◌, ok,
  err, Option-cases, arith, eq_refl, ℤ, add,
}
use podman_manager.Auth.Database.{
  UserRow, SessionRow, Database, Driver, insert_session, select_session, delete_token, no_rows,
  user_by_id, session_by_token, delete_token_rows,
}
use podman_manager.Auth.Sessions.{
  Session, delete_session, select_joined, unless_expired, get_session, insert_session_row,
  create_session,
}

session_by_token-append :
    (row : SessionRow) (rs : List SessionRow)
    → session_by_token row.token rs ≡ none
    → session_by_token row.token (rs ++ row ∷ []) ≡ some row
unfolding session_by_token
session_by_token-append row [] h = ground (arith, eq_refl row.token)
session_by_token-append row (r ∷ rs) h = ground (arith, session_by_token-append row rs)

session_by_token-delete_token_rows :
    (token : String) (rs : List SessionRow)
    → session_by_token token (delete_token_rows token rs) ≡ none
unfolding session_by_token delete_token_rows
session_by_token-delete_token_rows token [] = refl
session_by_token-delete_token_rows token (r ∷ rs) =
    ground (arith, session_by_token-delete_token_rows token rs)

-- The session that `CreateSession` makes of a row and a user
abbrev pub of_user : String → UserRow → ℕ → Session
of_user token u expires_at = record {
  token = token;
  user_id = u.id;
  username = u.username;
  role = u.role;
  expires_at = expires_at;
}

user_by_id-own : (id : ℕ) (us : List UserRow) (u : UserRow) → user_by_id id us ≡ some u → u.id ≡ id
unfolding user_by_id
user_by_id-own id [] u h = cc
user_by_id-own id (w ∷ us) u h = ground (arith, user_by_id-own id us u)

-- A row whose user is there lets this user in until it expires.
get_session_held :
    (d : Driver) (now : ℕ) (db : Database) (r : SessionRow) (u : UserRow)
    → d.fault select_session ≡ none
    → session_by_token r.token db.sessions ≡ some r
    → user_by_id r.user_id db.users ≡ some u
    → now ≤ r.expires_at
    → get_session d r.token now db ≡ (db, ok (of_user r.token u r.expires_at))
unfolding get_session select_joined unless_expired
get_session_held d now db r u s held found in_time =
    ground (arith, user_by_id-own r.user_id db.users u found)

abbrev new_row : String → ℕ → ℤ → ℕ → SessionRow
new_row token user_id ttl now = record {
  token = token;
  user_id = user_id;
  expires_at = add now ttl;
}

insert_session_row_ok :
    (d : Driver) (row : SessionRow) (u : UserRow) (db : Database)
    → d.fault insert_session ≡ none
    → session_by_token row.token db.sessions ≡ none
    → user_by_id row.user_id db.users ≡ some u
    → insert_session_row d row db ≡ ok (record db { sessions = db.sessions ++ row ∷ [] })
unfolding insert_session_row
insert_session_row_ok d row u db i fresh found = ground arith

-- Where the engine does not fail, a session that is opened for a user with a token that is new, and is
-- read back before its end, is given with the name and the role that the user has, and lets this user
-- in, with the same name and role, at each time up to its end, that end included.
pub create_session_lets_in :
    (d : Driver) (token : String) (u : UserRow) (id : ℕ) (ttl : ℤ) (now later at : ℕ)
    (db : Database)
    → d.fault insert_session ≡ none
    → d.fault select_session ≡ none
    → session_by_token token db.sessions ≡ none
    → user_by_id id db.users ≡ some u
    → later ≤ add now ttl
    → at ≤ add now ttl
    → let db' = (create_session d (some token) id ttl now later db).0 in
      ((create_session d (some token) id ttl now later db).1 ≡ ok (of_user token u (add now ttl)))
      × (get_session d token at db' ≡ (db', ok (of_user token u (add now ttl))))
unfolding create_session
create_session_lets_in d token u id ttl now later at db i s fresh found soon in_time =
    let row = new_row token id ttl now in
    let db' : Database = record db { sessions = db.sessions ++ row ∷ [] } in
    let held = session_by_token-append row db.sessions fresh in
    let inserted = insert_session_row_ok d row u db i fresh found in
    let first = get_session_held d later db' row u s held found soon in
    let second = get_session_held d at db' row u s held found in_time in
    rw (inserted, create_session) (rw first (refl, second))

-- Where the engine does not fail, the use of a session with a token after its end is refused, and
-- the session is deleted unless its user is gone.
pub get_session_expired :
    (d : Driver) (token : String) (now : ℕ) (db : Database) (r : SessionRow)
    → d.fault select_session ≡ none
    → d.fault delete_token ≡ none
    → (token == "") ≡ false
    → session_by_token token db.sessions ≡ some r
    → r.expires_at < now
    → ((get_session d token now db).1 ≡ err no_rows)
      × ((user_by_id r.user_id db.users ≡ none)
          ⊎ (session_by_token token (get_session d token now db).0.sessions ≡ none))
unfolding get_session select_joined unless_expired delete_session
get_session_expired d token now db r s t named held over =
    elim (Option-cases (user_by_id r.user_id db.users)) [
      | inl e ↦ (ground arith, inl e)
      | inr (u, e) ↦
          (ground arith, inr (ground (arith, session_by_token-delete_token_rows token db.sessions)))
    ]
