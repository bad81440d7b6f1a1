-- ===== src/Connect/Commands.antt =====
-- `handleStreamCommand` of agent/internal/connect.go: a command comes as an `ErrorResponse`, and what
-- it answers goes to the manager over the stream. What Podman and the standard library's parsers give
-- is an `Engine`, and how an answer is encoded an `Encoder`.
pub mod Answers
use podman_manager.Prelude.{
  ℕ, String, Bool, true, false, Option, none, some, List, [], ◌∷◌, Map, Result, ok, err, ◌==◌,
  if◌then◌else◌, ℤ,
}
use podman_manager.Agent.Messages.{
  Payload, ErrorResponse, AgentType, ManagerMessage, failure, container_list_response,
  volume_list_response, volume_action_response, volume_prune_response, network_list_response,
  network_action_response, network_prune_response, container_logs_error, event_stream_error,
  error_response,
}
use podman_manager.Connect.Manager.{
  Manager, StreamError, start_log_stream, stop_log_stream, start_event_stream, stop_event_stream,
}
use podman_manager.Connect.Containers.{Sent}

pub record ActionResult : Type 0 where
  pub success : Bool
  pub message : String
  pub error : String

pub record Volume : Type 0 where
  pub name : String
  pub driver : String
  pub mountpoint : String
  pub labels : Map String

pub record Network : Type 0 where
  pub name : String
  pub driver : String
  pub subnet : String
  pub gateway : String
  pub ipv6 : Bool
  pub labels : Map String

pub record VolumeSpec : Type 0 where
  pub name : String
  pub driver : String
  pub labels : Map String
  pub options : Map String

pub record NetworkSpec : Type 0 where
  pub name : String
  pub driver : String
  pub subnet : String
  pub gateway : String
  pub ipv6 : Bool
  pub labels : Map String
  pub options : Map String

-- an error, or nil
abbrev pub Failure : Type 0
Failure = Option String

pub record Engine : Type 0 where
  pub list_containers : Bool → Result String (List Sent)
  pub list_volumes : Result String (List Volume)
  pub create_volume : VolumeSpec → Failure
  pub remove_volume : String → Bool → Failure
  pub prune_volumes : Option (List String) × Failure
  pub list_networks : Result String (List Network)
  pub create_network : NetworkSpec → Failure
  pub remove_network : String → Failure
  pub prune_networks : Option (List String) × Failure
  pub connect_network : String → String → Failure
  pub disconnect_network : String → String → Bool → Failure
  pub parse_bool : String → Bool
  pub atoi : String → ℤ
  pub parse_volume : String → Result String VolumeSpec
  pub parse_network : String → Result String NetworkSpec

pub record Encoder : Type 0 where
  pub containers : List Sent → Payload
  pub volumes : List Volume → Payload
  pub volume_action : String → ActionResult → Payload
  pub volumes_pruned : Option (List String) → ActionResult → Payload
  pub networks : List Network → Payload
  pub network_action : String → String → ActionResult → Payload
  pub networks_pruned : Option (List String) → ActionResult → Payload
  pub logs_failure : String → StreamError → Payload
  pub events_failure : StreamError → Payload

unfoldable pub action_result : Failure → String → ActionResult
action_result none message = record { success = true; message = message; error = "" }
action_result (some e) message = record { success = false; message = ""; error = e }

-- `errorAgentMessage`
unfoldable pub error_agent_message : String → String → AgentType
error_agent_message id text =
    error_response (record { request_id = id; code = "agent_error"; message = text; details = "" })

-- an answer, or the error instead
abbrev pub answer {ℓ} : {A : Type ℓ} → String → Result String A → (A → AgentType) → AgentType
answer id (ok a) f = f a
answer id (err e) f = error_agent_message id e

pub data Code : Type 0 where
  container_list volume_list volume_create volume_remove volume_prune : Code
  network_list network_create network_remove network_prune : Code
  network_connect network_disconnect : Code
  container_logs_start container_logs_stop event_stream_start event_stream_stop : Code
  unknown : Code

-- the `switch` over `errResp.Code`
unfoldable pub code_of : String → Code
code_of c =
    if c == "container_list"
    then container_list
    else (if c == "volume_list"
        then volume_list
        else (if c == "volume_create"
            then volume_create
            else (if c == "volume_remove"
                then volume_remove
                else (if c == "volume_prune"
                    then volume_prune
                    else (if c == "network_list"
                        then network_list
                        else (if c == "network_create"
                            then network_create
                            else (if c == "network_remove"
                                then network_remove
                                else (if c == "network_prune"
                                    then network_prune
                                    else (if c == "network_connect"
                                        then network_connect
                                        else (if c == "network_disconnect"
                                            then network_disconnect
                                            else (if c == "container_logs_start"
                                                then container_logs_start
                                                else (if c == "container_logs_stop"
                                                    then container_logs_stop
                                                    else (if c == "event_stream_start"
                                                        then event_stream_start
                                                        else (if c == "event_stream_stop"
                                                            then event_stream_stop
                                                            else unknown))))))))))))))

-- whether the message was a command, what is sent for it, and the state after it
abbrev pub Handled : Type 0
Handled = Bool × List AgentType × Manager

-- a stream that could not be started is answered with an error
abbrev pub started : Result StreamError (Unit {0}) × Manager → (StreamError → AgentType) → Handled
started (ok _, m) f = (true, [], m)
started (err e, m) f = (true, f e ∷ [], m)

-- The cases. A stream that is started runs in the context `c`; `tail` only goes to Podman.
unfoldable pub handle_code : Engine → Encoder → ℕ → ErrorResponse → Code → Manager → Handled
unfolding action_result start_log_stream stop_log_stream start_event_stream stop_event_stream
handle_code env enc c e container_list m = (
  true,
  answer e.request_id (env.list_containers (env.parse_bool e.details))
        (λ cs. container_list_response e.request_id (enc.containers cs))
      ∷ [],
  m,
)
handle_code env enc c e volume_list m = (
  true,
  answer e.request_id env.list_volumes (λ vs. volume_list_response e.request_id (enc.volumes vs))
      ∷ [],
  m,
)
handle_code env enc c e volume_create m = (
  true,
  answer e.request_id (env.parse_volume e.details) (λ v.
        volume_action_response e.request_id
          (enc.volume_action v.name (action_result (env.create_volume v) "volume created")))
      ∷ [],
  m,
)
handle_code env enc c e volume_remove m =
    let result =
      action_result (env.remove_volume e.message (env.parse_bool e.details)) "volume removed" in
    (true, volume_action_response e.request_id (enc.volume_action e.message result) ∷ [], m)
handle_code env enc c e volume_prune m =
    let (pruned, failed) = env.prune_volumes in
    let result = action_result failed "volumes pruned" in
    (true, volume_prune_response e.request_id (enc.volumes_pruned pruned result) ∷ [], m)
handle_code env enc c e network_list m = (
  true,
  answer e.request_id env.list_networks (λ ns. network_list_response e.request_id (enc.networks ns))
      ∷ [],
  m,
)
handle_code env enc c e network_create m = (
  true,
  answer e.request_id (env.parse_network e.details) (λ n.
        network_action_response e.request_id
          (enc.network_action n.name "" (action_result (env.create_network n) "network created")))
      ∷ [],
  m,
)
handle_code env enc c e network_remove m =
    let result = action_result (env.remove_network e.message) "network removed" in
    (true, network_action_response e.request_id (enc.network_action e.message "" result) ∷ [], m)
handle_code env enc c e network_prune m =
    let (pruned, failed) = env.prune_networks in
    let result = action_result failed "networks pruned" in
    (true, network_prune_response e.request_id (enc.networks_pruned pruned result) ∷ [], m)
handle_code env enc c e network_connect m =
    let result = action_result (env.connect_network e.message e.details) "network connected" in
    (
      true,
      network_action_response e.request_id (enc.network_action e.message e.details result) ∷ [],
      m,
    )
handle_code env enc c e network_disconnect m =
    let failed = env.disconnect_network e.message e.details true in
    let result = action_result failed "network disconnected" in
    (
      true,
      network_action_response e.request_id (enc.network_action e.message e.details result) ∷ [],
      m,
    )
handle_code env enc c e container_logs_start m =
    started (start_log_stream e.request_id e.message c m)
      (λ f. container_logs_error e.request_id (enc.logs_failure e.message f))
handle_code env enc c e container_logs_stop m = (true, [], stop_log_stream e.request_id m)
handle_code env enc c e event_stream_start m =
    started (start_event_stream e.request_id c m)
      (λ f. event_stream_error e.request_id (enc.events_failure f))
handle_code env enc c e event_stream_stop m = (true, [], stop_event_stream e.request_id m)
handle_code env enc c e unknown m = (false, [], m)

unfoldable pub handle_stream_command : Engine → Encoder → ℕ → ManagerMessage → Manager → Handled
unfolding code_of handle_code
handle_stream_command env enc c (failure e) m = handle_code env enc c e (code_of e.code) m
handle_stream_command env enc c msg m = (false, [], m)
