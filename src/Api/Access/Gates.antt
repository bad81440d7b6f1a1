-- ===== src/Api/Access/Gates.antt =====
-- Which requests reach a handler.
use podman_manager.Prelude.{
  ℕ, ◌≤◌, ◌≡◌, refl, String, true, ◌⊎◌, ◌||◌, inl, inr, some, List, ◌∷◌, Option-cases, Bool-cases,
  Result-cases,
}
use podman_manager.Auth.Database.{
  Role, Database, Driver, UserRow, SessionRow, user_by_id, session_by_token,
}
use podman_manager.Auth.Sessions.{Session, get_session}
use podman_manager.Auth.Sessions.Apart.{same_users-get_session}
use podman_manager.Auth.Runs.Guards.{get_session_current}
use podman_manager.Api.Access.{
  Response, write_error, Handler, Request, has_role, with_rbac, is_public_path, with_auth,
  role_handler,
}

with_rbac_cases :
    (r : Role) (rs : List Role) (next : Handler) (sess : Session) (db : Database)
    → (with_rbac (r ∷ rs) next (some sess) db ≡ (db, write_error 403 "insufficient permissions"))
      ⊎ ((has_role sess.role (r ∷ rs) ≡ true)
          × (with_rbac (r ∷ rs) next (some sess) db ≡ next (some sess) db))
unfolding with_rbac
with_rbac_cases r rs next sess db = elim (Bool-cases (has_role sess.role (r ∷ rs))) [
  | inl e ↦ inr (e, rw e refl)
  | inr e ↦ inl (rw e refl)
]

same_role : (a b : Role) (rs : List Role) → a ≡ b → has_role a rs ≡ true → has_role b rs ≡ true
same_role a b rs same h = rw same at h

-- The request was refused with this status, and the users are what they were.
abbrev pub Refused : ℕ → Database → Database × Response → Type 0
Refused status db (db', response) = (response.status ≡ status) × (db'.users ≡ db.users)

-- Where authentication is on, a handler for some roles runs only for a request whose cookie is the
-- token of a session that has not expired, and whose user has one of these roles in the table of users
-- at that time. All other requests, also those that skip authentication, are answered with 401 or 403
-- and leave the users as they were.
pub role_handler_gate :
    (d : Driver) (now : ℕ) (r : Request) (role : Role) (roles : List Role) (next : Handler)
    (db : Database)
    → Refused 401 db (role_handler d now true r (role ∷ roles) next db)
      ⊎ (Refused 403 db (role_handler d now true r (role ∷ roles) next db))
      ⊎ ((token : String) × (u : UserRow) × (row : SessionRow) × (sess : Session) × (r.cookie
            ≡ some token)
          × (session_by_token token db.sessions ≡ some row)
          × (now ≤ row.expires_at)
          × (user_by_id row.user_id db.users ≡ some u)
          × (sess.user_id ≡ row.user_id)
          × (sess.role ≡ u.role)
          × (has_role u.role (role ∷ roles) ≡ true)
          × (role_handler d now true r (role ∷ roles) next db ≡ next (some sess) db))
unfolding role_handler with_auth
role_handler_gate d now r role roles next db =
    elim (Bool-cases (r.is_options || is_public_path r.path)) [
      | inl free ↦ rw (free, role_handler) (inl (unfold with_rbac in (refl, refl)))
      | inr shut ↦
          rw (shut, role_handler)
            (elim (Option-cases r.cookie) [
              | inl e ↦ rw e (inl (refl, refl))
              | inr (token, e) ↦ rw e (elim (Result-cases (get_session d token now db).1) [
                | inr (x, f) ↦ rw f (inl (refl, (same_users-get_session d token now db).0))
                | inl (sess, f) ↦
                    let (u, row, held, found, own, now_role, _, in_time, same) =
                      get_session_current d token now db sess f in
                    rw (f, same)
                      (elim (with_rbac_cases role roles next sess db) [
                        | inl g ↦ rw g (inr (inl (refl, refl)))
                        | inr (g, h) ↦ inr (
                            inr (
                              token,
                              u,
                              row,
                              sess,
                              refl,
                              held,
                              in_time,
                              found,
                              own,
                              now_role,
                              same_role sess.role u.role (role ∷ roles) now_role g,
                              h,
                            ))
                      ])
              ])
            ])
    ]
