-- ===== src/Agent/Server/Backing.antt =====
-- What an enrolment keeps of the server.
use podman_manager.Prelude.{
  ℕ, String, ◌≡◌, ◌≢◌, true, false, none, some, List, ◌==◌, ◌⊎◌, inl, inr, Bool-cases, arith,
  lookup-put,
}
use podman_manager.Enroll.{SaveOutcome, get_credential, consume_token}
use podman_manager.Enroll.Credentials.{IsKeyed}
use podman_manager.Enroll.Revocation.{register_credential-IsKeyed, credentials-consume_token}
use podman_manager.Agent.Server.{Server, EnrollRequest, commit_enroll, enroll}
use podman_manager.Agent.Server.Access.{IsBacked}
use podman_manager.Agent.Server.Enrolment.{
  granted, registered, granted_lookup, commit_enroll_cases, enroll_drawn,
}

module _ (token : String) (req : EnrollRequest) (agent_id credential : String) (now created : ℕ)
    (out : SaveOutcome) (order : List String) (s : Server) (v : IsBacked s)
    (named : (agent_id == "") ≡ false) where
  registered-IsKeyed :
      IsKeyed (registered token req agent_id credential now created out order s).0.credentials
  registered-IsKeyed =
      register_credential-IsKeyed (some (granted req agent_id credential created)) out order
        (consume_token token agent_id now s.enroll_store).0 (rw credentials-consume_token v.keyed)

  registered_backed :
      (k : String)
      → ((agent_id == k) ≡ true) ⊎ (get_credential k s.enroll_store ≢ none)
      → get_credential k (registered token req agent_id credential now created out order s).0 ≢ none
  registered_backed k (inl e) =
      rw (granted_lookup token req agent_id credential now created out order s k named)
        (ground arith)
  registered_backed k (inr h) =
      rw (granted_lookup token req agent_id credential now created out order s k named)
        (ground arith)

  commit_enroll-IsBacked :
      IsBacked (commit_enroll token req agent_id credential now created out order s).0
  commit_enroll-IsBacked =
      elim (commit_enroll_cases token req agent_id credential now created out order s) [
        | inl (x, left) ↦ rw left v
        | inr (inl (x, _, left)) ↦ rw left (record {
          keyed = registered-IsKeyed;
          backed = λ k c h. registered_backed k (inr (v.backed k c h));
        })
        | inr (inr (_, _, left)) ↦ rw left (record {
          keyed = registered-IsKeyed;
          backed = λ k c h. elim (Bool-cases (agent_id == k)) [
            | inl e ↦ registered_backed k (inl e)
            | inr e ↦ registered_backed k (inr (v.backed k c (rw (lookup-put, e) at h)))
          ];
        })
      ]

-- An enrolment, however it ends, keeps what `valid_credential_exact` needs.
pub enroll-IsBacked :
    (req : EnrollRequest) (now later created : ℕ) (agent_id credential : String) (out : SaveOutcome)
    (order : List String) (s : Server)
    → IsBacked s
    → (agent_id == "") ≡ false
    → IsBacked (enroll (some req) now later created (some (agent_id, credential)) out order s).0
enroll-IsBacked req now later created agent_id credential out order s v named =
    elim (enroll_drawn req now later created out order s agent_id credential) [
      | inl (x, left) ↦ rw left v
      | inr (token, _, left) ↦
          rw left
            (commit_enroll-IsBacked token req agent_id credential later created out order s v named)
    ]
