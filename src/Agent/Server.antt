-- ===== src/Agent/Server.antt =====
-- backend/internal/agent/server.go: the gRPC service that agents enrol with and connect to, and the
-- commands that it sends to them. Each lock of the source guards one step here; between the steps
-- of `SendCommand` and of `Enroll` other operations may run.
pub mod Access
pub mod Backing
pub mod Enrolment
pub mod Routing
pub mod Streams
use podman_manager.Prelude.{
  ℕ, suc, String, Bool, true, false, not, ◌&&◌, ◌||◌, Option, none, some, List, [], ◌∷◌, ◌++◌, ◌==◌,
  Map, lookup, put, delete, Result, ok, err, ◌>>=◌, map_err, ltb, trim_space, trim_prefix,
  if◌then◌else◌,
}
use podman_manager.Enroll
use podman_manager.Enroll.{
  AgentCredential, SaveOutcome, validate_token, consume_token, register_credential, get_credential,
  get_credential_by_token,
}
use podman_manager.Agent.Registry
use podman_manager.Agent.Registry.{Registry, AgentInfo}
use podman_manager.Agent.Messages.{
  AgentMessage, AgentType, ManagerMessage, Payload, heartbeat, heartbeat_ack, request_id,
  request_id_of, from_agent_message, command_envelope,
}

abbrev pub length {ℓ} : {A : Type ℓ} → List A → ℕ
length [] = 0
length (x ∷ xs) = suc (length xs)

-- a Go channel: what its buffer holds, and the size of the buffer
pub record Channel (A : Type 0) : Type 0 where
  pub buffer : List A
  pub size : ℕ

-- `select { case ch <- x: default: }`: a full buffer drops the value
unfoldable pub offer : {A : Type 0} → A → Channel A → Channel A
offer x ch =
    if ltb (length ch.buffer) ch.size then record ch { buffer = ch.buffer ++ x ∷ [] } else ch

pub record Server : Type 0 where
  pub registry : Registry
  pub enroll_store : Enroll.Store
  pub credentials : Map String
  pub commands : Map (Channel AgentMessage)
  pub stream_callbacks : Map (Channel ManagerMessage)

pub data Error : Type 0 where
  unauthenticated internal : Enroll.Error → Error
  invalid_credentials token_required random_failed stream_broken : Error
  not_connected already_pending send_failed cancelled empty_message : Error

unfoldable pub valid_credential : String → String → List String → Server → Bool
valid_credential agent_id credential order s = elim (get_credential agent_id s.enroll_store) [
  | some stored ↦ stored.active && stored.credential == credential
  | none ↦ elim (get_credential_by_token credential order s.enroll_store) [
    | some stored ↦ stored.active && stored.agent_id == agent_id
    | none ↦ elim (lookup agent_id s.credentials) [
      | none ↦ false
      | some stored ↦ stored == credential
    ]
  ]
]

-- The incoming metadata: the values of each key. `none` is a context that has no metadata.
abbrev pub Metadata : Type 0
Metadata = Map (List String)

-- `firstMetadata`
unfoldable pub first_metadata : Metadata → List String → String
first_metadata md [] = ""
first_metadata md (key ∷ keys) =
    let rest = first_metadata md keys in
    elim (lookup key md) [ some (value ∷ _) ↦ trim_space value | _ ↦ rest ]

pub record Credentials : Type 0 where
  pub agent_id : String
  pub credential : String
  pub hostname : String

unfoldable pub credentials_from_metadata : Option Metadata → Credentials
unfolding first_metadata trim_space trim_prefix
credentials_from_metadata none = record { agent_id = ""; credential = ""; hostname = "" }
credentials_from_metadata (some md) = record {
  agent_id = first_metadata md ("agent-id" ∷ []);
  credential =
      trim_prefix (first_metadata md ("agent-credential" ∷ "authorization" ∷ [])) "Bearer ";
  hostname = first_metadata md ("agent-hostname" ∷ "hostname" ∷ []);
}

-- `routeResponse`: to the callback of the request, or else to the pending command of the agent
unfoldable pub route_response : String → AgentMessage → Server → Server
route_response agent_id msg s =
    let pending : Server = elim (lookup agent_id s.commands) [
      | none ↦ s
      | some ch ↦ record s { commands = put agent_id (offer msg ch) s.commands }
    ] in
    let id = request_id msg in
    if id == "" then pending else elim (lookup id s.stream_callbacks) [
      | none ↦ pending
      | some callback ↦ elim (from_agent_message msg) [
        | none ↦ s
        | some m ↦ record s { stream_callbacks = put id (offer m callback) s.stream_callbacks }
      ]
    ]

-- What `stream.Recv` returns: a message, a nil message, the end of the stream or of its context, or
-- another failure. `now` and `sent` are the clock and the outcome of the answer to a heartbeat.
pub data Received : Type 0 where
  message : AgentMessage → ℕ → Bool → Received
  nothing ended broken : Received

-- one turn of the loop of `Connect`: the new state, and the result if the loop ends
unfoldable pub serve_message :
    String → Received → Server → Server × Option (Result Error (Unit {0}))
unfolding route_response
serve_message agent_id ended s = (s, some (ok tt))
serve_message agent_id broken s = (s, some (err stream_broken))
serve_message agent_id nothing s = (s, none)
serve_message agent_id (message (some (heartbeat id)) now sent) s = (
  record s { registry = Registry.update_heartbeat agent_id now s.registry },
  if sent then none else some (err send_failed),
)
serve_message agent_id (message msg now sent) s = (route_response agent_id msg s, none)

-- The loop of `Connect` over what the stream delivers; nothing is a loop that still waits.
unfoldable pub serve : String → List Received → Server → Server × Option (Result Error (Unit {0}))
unfolding serve_message
serve agent_id [] s = (s, none)
serve agent_id (r ∷ rs) s =
    let (s', result) = serve_message agent_id r s in
    elim result [ none ↦ serve agent_id rs s' | some done ↦ (s', some done) ]

abbrev pub new_agent : Credentials → ℕ → ℕ → AgentInfo
new_agent c now stream = record {
  id = c.agent_id;
  hostname = c.hostname;
  agent_version = "";
  podman_version = "";
  capabilities = [];
  connected_at = now;
  last_heartbeat = now;
  stream = some stream;
}

-- `Connect` up to its loop: the credentials are checked and the agent is registered
unfoldable pub open_stream :
    Option Metadata → ℕ → ℕ → List String → Server → Result Error (String × Server)
unfolding credentials_from_metadata valid_credential
open_stream md now stream order s =
    let c = credentials_from_metadata md in
    if c.agent_id == ""
      || c.credential == ""
      || not (valid_credential c.agent_id c.credential order s)
    then err invalid_credentials
    else ok (
      c.agent_id,
      record s { registry = Registry.register now (some (new_agent c now stream)) s.registry },
    )

-- the deferred `Unregister`
unfoldable pub close_stream : String → Server → Server
close_stream agent_id s = record s { registry = Registry.unregister agent_id s.registry }

-- `Connect` of a stream that nothing else interleaves with
unfoldable pub connect :
    Option Metadata
    → ℕ
    → ℕ
    → List String
    → List Received
    → Server
    → Server × Option (Result Error (Unit {0}))
unfolding open_stream serve close_stream
connect md now stream order rs s = elim (open_stream md now stream order s) [
  | err e ↦ (s, some (err e))
  | ok (agent_id, s') ↦
      let (t, result) = serve agent_id rs s' in
      elim result [ none ↦ (t, none) | some done ↦ (close_stream agent_id t, some done) ]
]

pub record EnrollRequest : Type 0 where
  pub token : String
  pub host_id : String

pub record EnrollResponse : Type 0 where
  pub agent_id : String
  pub credential : String

-- The first part of `Enroll`, up to the random draws; `none` is a nil request.
unfoldable pub check_enroll : Option EnrollRequest → ℕ → Server → Result Error String
check_enroll none now s = err token_required
check_enroll (some req) now s =
    let token = trim_space req.token in
    if token == "" then err token_required else elim (validate_token token now s.enroll_store) [
      | ok _ ↦ ok token
      | err e ↦ err (unauthenticated e)
    ]

-- The second part: the token is consumed, and the new credential is stored.
unfoldable pub commit_enroll :
    String
    → EnrollRequest
    → String
    → String
    → ℕ
    → ℕ
    → SaveOutcome
    → List String
    → Server
    → Server × Result Error EnrollResponse
commit_enroll token req agent_id credential now created out order s =
    let (store, consumed) = consume_token token agent_id now s.enroll_store in
    elim consumed [
      | err e ↦ (record s { enroll_store = store }, err (unauthenticated e))
      | ok _ ↦
          let (store', registered) =
            register_credential
              (some (record {
                agent_id = agent_id;
                hostname = trim_space req.host_id;
                credential = credential;
                created_at = created;
                last_seen = created;
                active = true;
              }))
              out order store in
          elim registered [
            | err e ↦ (record s { enroll_store = store' }, err (internal e))
            | ok _ ↦ (
              record s {
                enroll_store = store';
                credentials = put agent_id credential s.credentials;
              },
              ok (record { agent_id = agent_id; credential = credential }),
            )
          ]
    ]

-- `Enroll`, with its three readings of the clock; `drawn` is the agent ID and the credential that the
-- random source gives.
unfoldable pub enroll :
    Option EnrollRequest
    → ℕ
    → ℕ
    → ℕ
    → Option (String × String)
    → SaveOutcome
    → List String
    → Server
    → Server × Result Error EnrollResponse
enroll none now later created drawn out order s = (s, err token_required)
enroll (some req) now later created drawn out order s = elim (check_enroll (some req) now s) [
  | err e ↦ (s, err e)
  | ok token ↦ elim drawn [
    | none ↦ (s, err random_failed)
    | some (agent_id, credential) ↦
        commit_enroll token req agent_id credential later created out order s
  ]
]

-- `SendCommand` up to its `select`: the stream to wait on, or an error. `sent` is the outcome of
-- `Stream.Send`.
unfoldable pub begin_command : String → Bool → Server → Server × Result Error (Unit {0})
begin_command agent_id sent s = elim (Registry.get agent_id s.registry) [
  | none ↦ (s, err not_connected)
  | some agent ↦ elim agent.stream [
    | none ↦ (s, err not_connected)
    | some _ ↦ elim (lookup agent_id s.commands) [
      | some _ ↦ (s, err already_pending)
      | none ↦
          let registered = put agent_id (record { buffer = []; size = 1 }) s.commands in
          if sent
          then (record s { commands = registered }, ok tt)
          else (record s { commands = delete agent_id registered }, err send_failed)
    ]
  ]
]

-- The `select` of `SendCommand` with the deferred `delete`: a context that ends, or the message that
-- the channel holds. Nothing is a command that still waits.
unfoldable pub end_command : String → Bool → Server → Server × Option (Result Error ManagerMessage)
end_command agent_id context_done s =
    let left : Server = record s { commands = delete agent_id s.commands } in
    if context_done then (left, some (err cancelled)) else elim (lookup agent_id s.commands) [
      | none ↦ (s, none)
      | some ch ↦ elim ch.buffer [
        | [] ↦ (s, none)
        | msg ∷ _ ↦ elim (from_agent_message msg) [
          | none ↦ (left, some (err empty_message))
          | some m ↦ (left, some (ok m))
        ]
      ]
    ]

-- `RegisterStreamCallback` of a channel that its caller has just made
unfoldable pub register_stream_callback : String → ℕ → Server → Server
register_stream_callback id size s = record s {
  stream_callbacks = put id (record { buffer = []; size = size }) s.stream_callbacks;
}

unfoldable pub unregister_stream_callback : String → Server → Server
unregister_stream_callback id s = record s { stream_callbacks = delete id s.stream_callbacks }
