-- ===== src/Enroll/Handler/Outcomes.antt =====
-- What a request for a revocation has done, by its answer.
use podman_manager.Prelude.{
  String, ◌≡◌, ◌≢◌, refl, ◌⊎◌, inl, inr, true, none, some, List, ◌==◌, err, lookup, lookup-put,
  eq_refl, trim_space, Option-cases, Bool-cases, Result-cases, arith,
}
use podman_manager.Enroll.{
  Store, AgentCredential, SaveOutcome, saved, Error, get_credential, save_credentials,
  revoke_credential,
}
use podman_manager.Enroll.Credentials.{disabled, revoke_credential_found, revoke_credential_missing}
use podman_manager.Enroll.Revocation.{credentials-save_credentials}
use podman_manager.Enroll.Handler.{status_of, handle_revoke_agent}

save_credentials_failed :
    (out : SaveOutcome) (order : List String) (s : Store) (e : Error)
    → (save_credentials out order s).1 ≡ err e
    → out ≢ saved
unfolding save_credentials
save_credentials_failed out order s e h same = ground arith

disabled-revoke_credential :
    (id : String) (out : SaveOutcome) (order : List String) (s : Store) (c : AgentCredential)
    → lookup id s.credentials ≡ some c
    → get_credential id (revoke_credential id out order s).0 ≡ some (disabled c)
unfolding get_credential
disabled-revoke_credential id out order s c e =
    rw
      (
        revoke_credential_found id out order s c e,
        credentials-save_credentials,
        lookup-put,
        eq_refl,
      )
      refl

revoke_credential_failed :
    (id : String) (out : SaveOutcome) (order : List String) (s : Store) (c : AgentCredential)
    (x : Error)
    → lookup id s.credentials ≡ some c
    → (revoke_credential id out order s).1 ≡ err x
    → out ≢ saved
revoke_credential_failed id out order s c x e h =
    save_credentials_failed out order _ x (rw (revoke_credential_found id out order s c e) at h)

-- A request for a revocation is refused with 400 if it names no agent, and with 404 if the store does
-- not know the agent, and then changes nothing. In all other cases the agent's credential is disabled:
-- the answer is 200, or it is 404 and the file could not be written.
pub handle_revoke_agent_outcomes :
    (path_id : String) (out : SaveOutcome) (order : List String) (s : Store)
    → let id = trim_space path_id in
      let s' = (handle_revoke_agent path_id out order s).0 in
      let status = status_of (handle_revoke_agent path_id out order s).1 in
      (((id == "") ≡ true) × (status ≡ 400) × (s' ≡ s))
      ⊎ ((lookup id s.credentials ≡ none) × (status ≡ 404) × (s' ≡ s))
      ⊎ ((c : AgentCredential) × (lookup id s.credentials ≡ some c)
          × (get_credential id s' ≡ some (disabled c))
          × ((status ≡ 200) ⊎ ((status ≡ 404) × (out ≢ saved))))
unfolding handle_revoke_agent
handle_revoke_agent_outcomes path_id out order s =
    let id = trim_space path_id in
    elim (Bool-cases (id == "")) [
      | inl b ↦ inl (b, ground arith, ground arith)
      | inr b ↦ elim (Option-cases (lookup id s.credentials)) [
        | inl e ↦
            let left = revoke_credential_missing id out order s e in
            inr (inl (e, ground (arith, left), ground (arith, left)))
        | inr (c, e) ↦
            let gone = disabled-revoke_credential id out order s c e in
            inr (
              inr (
                c,
                e,
                rw (b, handle_revoke_agent)
                    (elim (Result-cases (revoke_credential id out order s).1) [
                      | inl (_, r) ↦ rw r gone
                      | inr (x, r) ↦ rw r gone
                    ]),
                elim (Result-cases (revoke_credential id out order s).1) [
                  | inl (_, r) ↦ inl (ground arith)
                  | inr (x, r) ↦ inr (ground arith, revoke_credential_failed id out order s c x e r)
                ],
              ))
      ]
    ]
