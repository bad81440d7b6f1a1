-- ===== src/Connect/Requests.antt =====
-- The request IDs of agent/internal/connect.go: `setAgentRequestID`, `managerRequestID`, and what
-- `sendRequest` makes of an answer. Messages are those of Agent/Messages.
pub mod Ids
use podman_manager.Prelude.{String, Bool, true, false, Option, none, some, Result, ok, err}
use podman_manager.Agent.Messages.{
  AgentType, AgentMessage, ManagerMessage, heartbeat, container_list_request,
  container_inspect_request, container_start_request, container_stop_request,
  container_restart_request, container_remove_request, container_create_request,
  container_logs_request, image_list_request, image_pull_request, image_remove_request,
  image_prune_request, volume_list_request, volume_prune_request, volume_create_request,
  volume_remove_request, network_list_request, network_prune_request, network_create_request,
  network_remove_request, network_connect_request, network_disconnect_request, host_info_request,
  event_stream_subscribe, event_stream_unsubscribe, container_list_response, volume_list_response,
  volume_action_response, volume_prune_response, network_list_response, network_action_response,
  network_prune_response, container_logs_chunk, container_logs_error, event_stream_data,
  event_stream_error, error_response, heartbeat_ack, list_containers, inspect_container,
  act_on_container, create_container, logs_chunk, logs_error, list_images, act_on_image,
  prune_images, list_volumes, act_on_volume, prune_volumes, list_networks, act_on_network,
  prune_networks, host_info, event_data, event_error, enroll_challenge, failure,
}

-- the message with the ID, if its kind has one to set
unfoldable pub with_request_id : AgentType → String → Option AgentType
with_request_id (heartbeat _) id = some (heartbeat id)
with_request_id (container_list_request _ all) id = some (container_list_request id all)
with_request_id (container_inspect_request _) id = some (container_inspect_request id)
with_request_id (container_start_request _) id = some (container_start_request id)
with_request_id (container_stop_request _) id = some (container_stop_request id)
with_request_id (container_restart_request _) id = some (container_restart_request id)
with_request_id (container_remove_request _) id = some (container_remove_request id)
with_request_id (container_create_request _) id = some (container_create_request id)
with_request_id (container_logs_request _) id = some (container_logs_request id)
with_request_id (image_list_request _) id = some (image_list_request id)
with_request_id (image_pull_request _) id = some (image_pull_request id)
with_request_id (image_remove_request _) id = some (image_remove_request id)
with_request_id (image_prune_request _) id = some (image_prune_request id)
with_request_id (volume_list_request _) id = some (volume_list_request id)
with_request_id (volume_create_request _ name rest) id = some (volume_create_request id name rest)
with_request_id (volume_remove_request _ name force) id = some (volume_remove_request id name force)
with_request_id (volume_prune_request _) id = some (volume_prune_request id)
with_request_id (network_list_request _) id = some (network_list_request id)
with_request_id (network_create_request _ name rest) id = some (network_create_request id name rest)
with_request_id (network_remove_request _ name) id = some (network_remove_request id name)
with_request_id (network_prune_request _) id = some (network_prune_request id)
with_request_id (network_connect_request _ n c) id = some (network_connect_request id n c)
with_request_id (network_disconnect_request _ n c) id = some (network_disconnect_request id n c)
with_request_id (host_info_request _) id = some (host_info_request id)
with_request_id (event_stream_subscribe _) id = some (event_stream_subscribe id)
with_request_id (event_stream_unsubscribe _) id = some (event_stream_unsubscribe id)
with_request_id t id = none

-- `setAgentRequestID`, which writes into the message and says whether it could
unfoldable pub set_agent_request_id : AgentMessage → String → Bool × AgentMessage
unfolding with_request_id
set_agent_request_id none id = (false, none)
set_agent_request_id (some t) id = elim (with_request_id t id) [
  | none ↦ (false, some t)
  | some u ↦ (true, some u)
]

-- `managerRequestID` of a message that is not nil
unfoldable pub manager_request_id : ManagerMessage → String
manager_request_id (heartbeat_ack id) = id
manager_request_id (list_containers id rest) = id
manager_request_id (inspect_container id rest) = id
manager_request_id (act_on_container id rest) = id
manager_request_id (create_container id rest) = id
manager_request_id (logs_chunk id rest) = id
manager_request_id (logs_error id rest) = id
manager_request_id (list_images id rest) = id
manager_request_id (act_on_image id rest) = id
manager_request_id (prune_images id rest) = id
manager_request_id (list_volumes id rest) = id
manager_request_id (act_on_volume id rest) = id
manager_request_id (prune_volumes id rest) = id
manager_request_id (list_networks id rest) = id
manager_request_id (act_on_network id rest) = id
manager_request_id (prune_networks id rest) = id
manager_request_id (host_info id rest) = id
manager_request_id (event_data id rest) = id
manager_request_id (event_error id rest) = id
manager_request_id enroll_challenge = ""
manager_request_id (failure e) = e.request_id
