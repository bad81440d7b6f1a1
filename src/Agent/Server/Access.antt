-- ===== src/Agent/Server/Access.antt =====
-- Which agents may connect.
use podman_manager.Prelude.{
  ℕ, String, ◌≡◌, ◌≢◌, refl, Bool, true, false, ◌&&◌, Option, none, some, List, ◌==◌, eq_iff,
  eq_refl, inl, inr, Option-cases, arith, err, lookup,
}
use podman_manager.Enroll.{
  AgentCredential, SaveOutcome, get_credential, get_credential_by_token, revoke_credential,
}
use podman_manager.Enroll.Credentials.{IsKeyed, find_credential_sound}
use podman_manager.Enroll.Runs.{run, Operation}
use podman_manager.Enroll.Revocation.{
  revoked, NeverRegisters, run-revoked, revoked-revoke_credential,
}
use podman_manager.Agent.Server.{
  Server, Metadata, Received, Error, invalid_credentials, valid_credential,
  credentials_from_metadata, open_stream, connect,
}

-- The credentials that the server keeps in memory are those of agents that the store knows.
pub record IsBacked (s : Server) : Type 0 where
  pub keyed : IsKeyed s.enroll_store.credentials
  pub backed :
      (k c : String) → lookup k s.credentials ≡ some c → get_credential k s.enroll_store ≢ none

-- what the store says about an agent and a credential
abbrev pub stored_valid : String → Option AgentCredential → Bool
stored_valid credential none = false
stored_valid credential (some stored) = stored.active && stored.credential == credential

by_token_none :
    (agent_id credential : String) (order : List String) (s : Server)
    → IsBacked s
    → get_credential agent_id s.enroll_store ≡ none
    → valid_credential agent_id credential order s ≡ false
unfolding valid_credential
by_token_none agent_id credential order s v missing =
    elim (Option-cases (get_credential_by_token credential order s.enroll_store)) [
      | inl e ↦ elim (Option-cases (lookup agent_id s.credentials)) [
        | inl m ↦ ground arith
        | inr (c, m) ↦ absurd (v.backed agent_id c m missing)
      ]
      | inr (c, e) ↦
          let (k, held, _) =
            find_credential_sound credential order s.enroll_store.credentials c
              (unfold get_credential_by_token in e) in
          let own = v.keyed.own k c held in
          let gone : lookup agent_id s.enroll_store.credentials ≡ none =
            unfold get_credential in missing in
          ground (arith, own, eq_iff c.agent_id agent_id)
    ]

-- Where the store keeps credentials under their own agents, and the server those of agents that the
-- store knows: an agent is let in exactly if the store holds an active credential under its ID that
-- is equal to the one it shows. The lookup by credential and the copy in memory let nobody else in.
pub valid_credential_exact :
    (agent_id credential : String) (order : List String) (s : Server)
    → IsBacked s
    → valid_credential agent_id credential order s
      ≡ stored_valid credential (get_credential agent_id s.enroll_store)
valid_credential_exact agent_id credential order s v =
    elim (Option-cases (get_credential agent_id s.enroll_store)) [
      | inl e ↦ rw (by_token_none agent_id credential order s v e) (rw e refl)
      | inr (c, e) ↦ unfold valid_credential in ground arith
    ]

-- An agent whose stored credential is disabled is not let in, whatever credential it shows.
valid_credential-revoked :
    (agent_id credential : String) (order : List String) (s : Server)
    → revoked (lookup agent_id s.enroll_store.credentials) ≡ true
    → valid_credential agent_id credential order s ≡ false
unfolding valid_credential get_credential
valid_credential-revoked agent_id credential order s h =
    elim (Option-cases (lookup agent_id s.enroll_store.credentials)) [
      | inl e ↦ absurd (ground arith)
      | inr (c, e) ↦ ground arith
    ]

open_stream-revoked :
    (md : Option Metadata) (now stream : ℕ) (order : List String) (s : Server)
    → revoked (lookup (credentials_from_metadata md).agent_id s.enroll_store.credentials) ≡ true
    → open_stream md now stream order s ≡ err invalid_credentials
unfolding open_stream
open_stream-revoked md now stream order s h =
    let c = credentials_from_metadata md in
    ground (arith, valid_credential-revoked c.agent_id c.credential order s h)

connect_refused :
    (md : Option Metadata) (now stream : ℕ) (order : List String) (rs : List Received) (s : Server)
    (e : Error)
    → open_stream md now stream order s ≡ err e
    → connect md now stream order rs s ≡ (s, some (err e))
unfolding connect
connect_refused md now stream order rs s e h = rw (h, connect) refl

-- A revocation is final: once `RevokeCredential` was called for an agent that the store knows, even
-- if the file could not be written, then after any run of the store's operations that stores no new
-- credential for this agent, a stream that shows its ID is refused whatever credential it shows, and
-- leaves the server as it was.
pub connect-revoked :
    (s : Server) (md : Option Metadata) (c : AgentCredential) (out : SaveOutcome)
    (order : List String) (os : List Operation) (now stream : ℕ) (visit : List String)
    (rs : List Received)
    → lookup (credentials_from_metadata md).agent_id s.enroll_store.credentials ≡ some c
    → NeverRegisters (credentials_from_metadata md).agent_id os
    → let id = (credentials_from_metadata md).agent_id in
      let t : Server = record s {
        enroll_store = run (revoke_credential id out order s.enroll_store).0 os;
      } in
      connect md now stream visit rs t ≡ (t, some (err invalid_credentials))
connect-revoked s md c out order os now stream visit rs known never =
    let id = (credentials_from_metadata md).agent_id in
    let store = run (revoke_credential id out order s.enroll_store).0 os in
    let gone =
      run-revoked id (revoke_credential id out order s.enroll_store).0 os never
        (revoked-revoke_credential id out order s.enroll_store c known) in
    connect_refused md now stream visit rs (record s { enroll_store = store }) invalid_credentials
      (open_stream-revoked md now stream visit (record s { enroll_store = store }) gone)

pub valid_credential_stored :
    (c : AgentCredential) (order : List String) (s : Server)
    → get_credential c.agent_id s.enroll_store ≡ some c
    → c.active ≡ true
    → valid_credential c.agent_id c.credential order s ≡ true
unfolding valid_credential
valid_credential_stored c order s held active = ground (arith, eq_refl c.credential)
