-- ===== src/Enroll/Handler.antt =====
-- backend/internal/enroll/handler.go: the HTTP handlers over the store. A time in a response is the time
-- itself, not its text, and the text of an error is the error. The command that installs an agent,
-- which is a text with the host of the request in it, is not here.
pub mod Outcomes
use podman_manager.Prelude.{
  ℕ, String, Bool, Option, none, some, List, [], ◌∷◌, ◌==◌, Result, ok, err, trim_space,
  if◌then◌else◌,
}
use podman_manager.Enroll.{
  Store, EnrollmentToken, AgentCredential, SaveOutcome, Error, create_token, list_credentials,
  revoke_credential,
}

pub record AgentResponse : Type 0 where
  pub agent_id : String
  pub hostname : String
  pub created_at : ℕ
  pub last_seen : ℕ
  pub active : Bool

pub data Reply : Type 0 where
  refusal : ℕ → String → Reply
  failure : ℕ → Error → Reply
  enrolment : String → ℕ → Reply
  agents : List AgentResponse → Reply
  revocation : Reply

-- the status of the response
abbrev pub status_of : Reply → ℕ
status_of (refusal status text) = status
status_of (failure status e) = status
status_of (enrolment token expires_at) = 200
status_of (agents list) = 200
status_of revocation = 200

unfoldable pub handle_create_token : Option String → ℕ → Store → Store × Reply
handle_create_token random now s =
    let (s', created) = create_token random now s in
    elim created [
      | err e ↦ (s', refusal 500 "failed to create enrollment token")
      | ok t ↦ (s', enrolment t.token t.expires_at)
    ]

abbrev pub agent_response : AgentCredential → AgentResponse
agent_response cred = record {
  agent_id = cred.agent_id;
  hostname = cred.hostname;
  created_at = cred.created_at;
  last_seen = cred.last_seen;
  active = cred.active;
}

unfoldable pub agent_responses : List AgentCredential → List AgentResponse
agent_responses [] = []
agent_responses (cred ∷ creds) = agent_response cred ∷ agent_responses creds

unfoldable pub handle_list_agents : List String → Store → Reply
unfolding agent_responses
handle_list_agents order s = agents (agent_responses (list_credentials order s))

unfoldable pub handle_revoke_agent : String → SaveOutcome → List String → Store → Store × Reply
handle_revoke_agent path_id out order s =
    let agent_id = trim_space path_id in
    if agent_id == ""
    then (s, refusal 400 "agent id is required")
    else let (s', revoked) = revoke_credential agent_id out order s in
      elim revoked [ err e ↦ (s', failure 404 e) | ok _ ↦ (s', revocation) ]
