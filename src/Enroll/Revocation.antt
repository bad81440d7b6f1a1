-- ===== src/Enroll/Revocation.antt =====
-- The credentials under any run of the store's operations.
use podman_manager.Prelude.{
  ℕ, String, ◌≡◌, refl, Bool, true, false, not, Option, none, some, List, [], ◌∷◌, ◌==◌, eq_refl,
  inl, inr, Option-cases, Bool-cases, arith, lookup, lookup-put, put,
}
use podman_manager.Enroll.{
  Store, AgentCredential, SaveOutcome, save_credentials, register_credential, revoke_credential,
  consume_token, create_token, cleanup_expired,
}
use podman_manager.Enroll.Credentials.{
  IsKeyed, put-IsKeyed, disabled, revoke_credential_found, revoke_credential_missing,
}
use podman_manager.Enroll.Runs.{Operation, create, consume, register, revoke, cleanup, step, run}

pub credentials-save_credentials :
    (out : SaveOutcome) (order : List String) (s : Store)
    → (save_credentials out order s).0.credentials ≡ s.credentials
unfolding save_credentials
credentials-save_credentials out order s = ground arith

credentials-create_token :
    (random : Option String) (now : ℕ) (s : Store)
    → (create_token random now s).0.credentials ≡ s.credentials
unfolding create_token
credentials-create_token none now s = refl
credentials-create_token (some drawn) now s = refl

pub credentials-consume_token :
    (token agent_id : String) (now : ℕ) (s : Store)
    → (consume_token token agent_id now s).0.credentials ≡ s.credentials
unfolding consume_token
credentials-consume_token token agent_id now s = ground arith

pub credentials-register_credential :
    (cred : AgentCredential) (out : SaveOutcome) (order : List String) (s : Store)
    → (cred.agent_id == "") ≡ false
    → (register_credential (some cred) out order s).0.credentials
      ≡ put cred.agent_id cred s.credentials
unfolding register_credential
credentials-register_credential cred out order s named =
    rw named (credentials-save_credentials out order _)

pub register_credential-IsKeyed :
    (cred : Option AgentCredential) (out : SaveOutcome) (order : List String) (s : Store)
    → IsKeyed s.credentials
    → IsKeyed (register_credential cred out order s).0.credentials
unfolding register_credential
register_credential-IsKeyed none out order s v = v
register_credential-IsKeyed (some c) out order s v = elim (Bool-cases (c.agent_id == "")) [
  | inl e ↦ rw e v
  | inr e ↦ rw e (rw credentials-save_credentials (put-IsKeyed c.agent_id c s.credentials refl e v))
]

revoke_credential-IsKeyed :
    (agent_id : String) (out : SaveOutcome) (order : List String) (s : Store)
    → IsKeyed s.credentials
    → IsKeyed (revoke_credential agent_id out order s).0.credentials
revoke_credential-IsKeyed agent_id out order s v =
    elim (Option-cases (lookup agent_id s.credentials)) [
      | inl e ↦ rw (revoke_credential_missing agent_id out order s e) v
      | inr (c, e) ↦ rw (revoke_credential_found agent_id out order s c e) (
          rw credentials-save_credentials (
            put-IsKeyed agent_id (disabled c) s.credentials (v.own agent_id c e)
              (v.named agent_id c e) v))
    ]

step-IsKeyed : (s : Store) (o : Operation) → IsKeyed s.credentials → IsKeyed (step s o).credentials
unfolding step
step-IsKeyed s (create random now) v = rw credentials-create_token v
step-IsKeyed s (consume token agent_id now) v = rw credentials-consume_token v
step-IsKeyed s (register cred out order) v = register_credential-IsKeyed cred out order s v
step-IsKeyed s (revoke agent_id out order) v = revoke_credential-IsKeyed agent_id out order s v
step-IsKeyed s (cleanup now order) v = unfold cleanup_expired in v

-- Every run of the store's operations keeps each credential under its own agent, which has a name.
pub run-IsKeyed :
    (s : Store) (os : List Operation) → IsKeyed s.credentials → IsKeyed (run s os).credentials
unfolding run
run-IsKeyed s [] v = v
run-IsKeyed s (o ∷ os) v = run-IsKeyed (step s o) os (step-IsKeyed s o v)

-- The store holds a credential of this agent, and it is disabled.
abbrev pub revoked : Option AgentCredential → Bool
revoked none = false
revoked (some c) = not c.active

-- the operation stores a credential for this agent
abbrev pub registers : String → Operation → Bool
registers agent_id (register (some c) out order) = c.agent_id == agent_id
registers agent_id _ = false

abbrev pub NeverRegisters : String → List Operation → Type 0
NeverRegisters agent_id [] = Unit
NeverRegisters agent_id (o ∷ os) = (registers agent_id o ≡ false) × NeverRegisters agent_id os

module _ (agent_id : String) where
  register_credential-revoked :
      (cred : Option AgentCredential) (out : SaveOutcome) (order : List String) (s : Store)
      → registers agent_id (register cred out order) ≡ false
      → revoked (lookup agent_id s.credentials) ≡ true
      → revoked (lookup agent_id (register_credential cred out order s).0.credentials) ≡ true
  unfolding register_credential
  register_credential-revoked none out order s n h = h
  register_credential-revoked (some c) out order s n h = elim (Bool-cases (c.agent_id == "")) [
    | inl e ↦ rw e h
    | inr e ↦ rw e (rw credentials-save_credentials (rw (lookup-put, n) h))
  ]

  revoke_credential-revoked :
      (other : String) (out : SaveOutcome) (order : List String) (s : Store)
      → revoked (lookup agent_id s.credentials) ≡ true
      → revoked (lookup agent_id (revoke_credential other out order s).0.credentials) ≡ true
  revoke_credential-revoked other out order s h = elim (Option-cases (lookup other s.credentials)) [
    | inl e ↦ rw (revoke_credential_missing other out order s e) h
    | inr (c, e) ↦
        rw (revoke_credential_found other out order s c e)
          (rw credentials-save_credentials (rw lookup-put (ground arith)))
  ]

  step-revoked :
      (s : Store) (o : Operation)
      → registers agent_id o ≡ false
      → revoked (lookup agent_id s.credentials) ≡ true
      → revoked (lookup agent_id (step s o).credentials) ≡ true
  unfolding step
  step-revoked s (create random now) n h = rw credentials-create_token h
  step-revoked s (consume token other now) n h = rw credentials-consume_token h
  step-revoked s (register cred out order) n h = register_credential-revoked cred out order s n h
  step-revoked s (revoke other out order) n h = revoke_credential-revoked other out order s h
  step-revoked s (cleanup now order) n h = unfold cleanup_expired in h

  pub run-revoked :
      (s : Store) (os : List Operation)
      → NeverRegisters agent_id os
      → revoked (lookup agent_id s.credentials) ≡ true
      → revoked (lookup agent_id (run s os).credentials) ≡ true
  unfolding run
  run-revoked s [] n h = h
  run-revoked s (o ∷ os) n h = run-revoked (step s o) os n.1 (step-revoked s o n.0 h)

  -- A revocation of an agent that the store knows disables its credential, also where the file
  -- cannot be written.
  pub revoked-revoke_credential :
      (out : SaveOutcome) (order : List String) (s : Store) (c : AgentCredential)
      → lookup agent_id s.credentials ≡ some c
      → revoked (lookup agent_id (revoke_credential agent_id out order s).0.credentials) ≡ true
  revoked-revoke_credential out order s c e =
      rw (revoke_credential_found agent_id out order s c e)
        (rw credentials-save_credentials (rw (lookup-put, eq_refl) refl))
