-- ===== src/Agent/Messages.antt =====
-- The messages between an agent and the manager (agent/proto/agent.proto), and the functions of
-- backend/internal/agent/server.go that read and convert them. A constructor carries the request ID
-- and the fields that the manager reads; the fields that it only passes on are their encoding.
pub mod Conversion
use podman_manager.Prelude.{ℕ, String, Bool, true, false, Option, none, some, List, Result, ok, err}

abbrev pub Payload : Type 0
Payload = List ℕ

pub record ErrorResponse : Type 0 where
  pub request_id : String
  pub code : String
  pub message : String
  pub details : String

-- the `oneof` of an `AgentMessage`
pub data AgentType : Type 0 where
  heartbeat : String → AgentType
  container_list_request : String → Bool → AgentType
  container_inspect_request container_start_request container_stop_request : String → AgentType
  container_restart_request container_remove_request : String → AgentType
  container_create_request container_logs_request image_list_request : String → AgentType
  image_pull_request image_remove_request image_prune_request : String → AgentType
  volume_list_request volume_prune_request : String → AgentType
  volume_create_request : String → String → Payload → AgentType
  volume_remove_request : String → String → Bool → AgentType
  network_list_request network_prune_request : String → AgentType
  network_create_request : String → String → Payload → AgentType
  network_remove_request : String → String → AgentType
  network_connect_request network_disconnect_request : String → String → String → AgentType
  host_info_request event_stream_subscribe event_stream_unsubscribe : String → AgentType
  container_list_response volume_list_response volume_action_response : String → Payload → AgentType
  volume_prune_response network_list_response network_action_response : String → Payload → AgentType
  network_prune_response container_logs_chunk container_logs_error : String → Payload → AgentType
  event_stream_data event_stream_error : String → Payload → AgentType
  error_response : ErrorResponse → AgentType

-- `none` is a message whose `oneof` is not set
abbrev pub AgentMessage : Type 0
AgentMessage = Option AgentType

-- the `oneof` of a `ManagerMessage`
pub data ManagerMessage : Type 0 where
  heartbeat_ack : String → ManagerMessage
  list_containers inspect_container act_on_container : String → Payload → ManagerMessage
  create_container logs_chunk logs_error : String → Payload → ManagerMessage
  list_images act_on_image prune_images : String → Payload → ManagerMessage
  list_volumes act_on_volume prune_volumes : String → Payload → ManagerMessage
  list_networks act_on_network prune_networks : String → Payload → ManagerMessage
  host_info event_data event_error : String → Payload → ManagerMessage
  enroll_challenge : ManagerMessage
  failure : ErrorResponse → ManagerMessage

-- `requestID`; the outer option is a nil pointer. The `switch` has no case for the two messages on
-- event subscriptions.
unfoldable pub request_id_of : AgentType → String
request_id_of (heartbeat id) = id
request_id_of (container_list_request id all) = id
request_id_of (container_inspect_request id) = id
request_id_of (container_start_request id) = id
request_id_of (container_stop_request id) = id
request_id_of (container_restart_request id) = id
request_id_of (container_remove_request id) = id
request_id_of (container_create_request id) = id
request_id_of (container_logs_request id) = id
request_id_of (image_list_request id) = id
request_id_of (image_pull_request id) = id
request_id_of (image_remove_request id) = id
request_id_of (image_prune_request id) = id
request_id_of (volume_list_request id) = id
request_id_of (volume_prune_request id) = id
request_id_of (volume_create_request id name rest) = id
request_id_of (volume_remove_request id name force) = id
request_id_of (network_list_request id) = id
request_id_of (network_prune_request id) = id
request_id_of (network_create_request id name rest) = id
request_id_of (network_remove_request id name) = id
request_id_of (network_connect_request id network container) = id
request_id_of (network_disconnect_request id network container) = id
request_id_of (host_info_request id) = id
request_id_of (event_stream_subscribe id) = ""
request_id_of (event_stream_unsubscribe id) = ""
request_id_of (container_list_response id rest) = id
request_id_of (volume_list_response id rest) = id
request_id_of (volume_action_response id rest) = id
request_id_of (volume_prune_response id rest) = id
request_id_of (network_list_response id rest) = id
request_id_of (network_action_response id rest) = id
request_id_of (network_prune_response id rest) = id
request_id_of (container_logs_chunk id rest) = id
request_id_of (container_logs_error id rest) = id
request_id_of (event_stream_data id rest) = id
request_id_of (event_stream_error id rest) = id
request_id_of (error_response e) = e.request_id

unfoldable pub request_id : AgentMessage → String
unfolding request_id_of
request_id none = ""
request_id (some t) = request_id_of t

abbrev unsupported : String → ManagerMessage
unsupported id =
    failure (record { request_id = ""; code = "unsupported_response"; message = id; details = "" })

-- the `switch` of `managerMessageFromAgentMessage`
unfoldable pub convert : AgentType → ManagerMessage
unfolding request_id_of
convert (container_list_response id rest) = list_containers id rest
convert (volume_list_response id rest) = list_volumes id rest
convert (volume_action_response id rest) = act_on_volume id rest
convert (volume_prune_response id rest) = prune_volumes id rest
convert (network_list_response id rest) = list_networks id rest
convert (network_action_response id rest) = act_on_network id rest
convert (network_prune_response id rest) = prune_networks id rest
convert (error_response e) = failure e
convert (container_logs_chunk id rest) = logs_chunk id rest
convert (container_logs_error id rest) = logs_error id rest
convert (event_stream_data id rest) = event_data id rest
convert (event_stream_error id rest) = event_error id rest
convert t = unsupported (request_id_of t)

-- `managerMessageFromAgentMessage`; nothing is the error on an empty message
unfoldable pub from_agent_message : AgentMessage → Option ManagerMessage
unfolding convert
from_agent_message none = none
from_agent_message (some t) = some (convert t)

abbrev pub bool_text : Bool → String
bool_text true = "true"
bool_text false = "false"

abbrev pub command : String → String → String → String → ManagerMessage
command id code message details =
    failure (record { request_id = id; code = code; message = message; details = details })

-- `commandEnvelope`: a command travels to the agent as an `ErrorResponse`. `json` is
-- `mustCommandJSON`, which gives the empty text for what cannot be encoded.
unfoldable pub command_envelope : (Payload → String) → AgentType → ManagerMessage
unfolding request_id_of
command_envelope json (container_list_request id all) =
    command id "container_list" "" (bool_text all)
command_envelope json (volume_list_request id) = command id "volume_list" "" ""
command_envelope json (volume_create_request id name rest) =
    command id "volume_create" name (json rest)
command_envelope json (volume_remove_request id name force) =
    command id "volume_remove" name (bool_text force)
command_envelope json (volume_prune_request id) = command id "volume_prune" "" ""
command_envelope json (network_list_request id) = command id "network_list" "" ""
command_envelope json (network_create_request id name rest) =
    command id "network_create" name (json rest)
command_envelope json (network_remove_request id name) = command id "network_remove" name ""
command_envelope json (network_prune_request id) = command id "network_prune" "" ""
command_envelope json (network_connect_request id network container) =
    command id "network_connect" network container
command_envelope json (network_disconnect_request id network container) =
    command id "network_disconnect" network container
command_envelope json t = command (request_id_of t) "command" (request_id_of t) ""
