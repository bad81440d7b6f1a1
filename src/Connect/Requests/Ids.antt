-- ===== src/Connect/Requests/Ids.antt =====
-- The request IDs that agent/internal/connect.go sets and reads are those that
-- backend/internal/agent/server.go reads and sends.
use podman_manager.Prelude.{String, Bool, true, false, Option, none, some, ◌≡◌, refl, subst}
use podman_manager.Agent.Messages.{
  AgentType, Payload, request_id_of, request_id, command_envelope, heartbeat,
  container_list_request, container_inspect_request, container_start_request,
  container_stop_request, container_restart_request, container_remove_request,
  container_create_request, container_logs_request, image_list_request, image_pull_request,
  image_remove_request, image_prune_request, volume_list_request, volume_prune_request,
  volume_create_request, volume_remove_request, network_list_request, network_prune_request,
  network_create_request, network_remove_request, network_connect_request,
  network_disconnect_request, host_info_request, event_stream_subscribe, event_stream_unsubscribe,
  container_list_response, volume_list_response, volume_action_response, volume_prune_response,
  network_list_response, network_action_response, network_prune_response, container_logs_chunk,
  container_logs_error, event_stream_data, event_stream_error, error_response,
}
use podman_manager.Connect.Requests.{with_request_id, manager_request_id}

-- a subscription to events, whose request ID the manager does not read
abbrev pub is_subscription : AgentType → Bool
is_subscription (event_stream_subscribe id) = true
is_subscription (event_stream_unsubscribe id) = true
is_subscription t = false

-- the property for what is set, if anything is
abbrev Matches : (Payload → String) → AgentType → String → Option AgentType → Type 0
Matches json t id none = Unit
Matches json t id (some u) =
    (request_id (some u) ≡ (elim (is_subscription t) [ true ↦ "" | false ↦ id ]))
    × (manager_request_id (command_envelope json u) ≡ request_id (some u))

matches :
    (json : Payload → String) (t : AgentType) (id : String)
    → Matches json t id (with_request_id t id)
unfolding with_request_id request_id request_id_of manager_request_id command_envelope
matches json (heartbeat x) id = (refl, refl)
matches json (container_list_request x y) id = (refl, refl)
matches json (container_inspect_request x) id = (refl, refl)
matches json (container_start_request x) id = (refl, refl)
matches json (container_stop_request x) id = (refl, refl)
matches json (container_restart_request x) id = (refl, refl)
matches json (container_remove_request x) id = (refl, refl)
matches json (container_create_request x) id = (refl, refl)
matches json (container_logs_request x) id = (refl, refl)
matches json (image_list_request x) id = (refl, refl)
matches json (image_pull_request x) id = (refl, refl)
matches json (image_remove_request x) id = (refl, refl)
matches json (image_prune_request x) id = (refl, refl)
matches json (volume_list_request x) id = (refl, refl)
matches json (volume_prune_request x) id = (refl, refl)
matches json (volume_create_request x y z) id = (refl, refl)
matches json (volume_remove_request x y z) id = (refl, refl)
matches json (network_list_request x) id = (refl, refl)
matches json (network_prune_request x) id = (refl, refl)
matches json (network_create_request x y z) id = (refl, refl)
matches json (network_remove_request x y) id = (refl, refl)
matches json (network_connect_request x y z) id = (refl, refl)
matches json (network_disconnect_request x y z) id = (refl, refl)
matches json (host_info_request x) id = (refl, refl)
matches json (event_stream_subscribe x) id = (refl, refl)
matches json (event_stream_unsubscribe x) id = (refl, refl)
matches json (container_list_response x y) id = tt
matches json (volume_list_response x y) id = tt
matches json (volume_action_response x y) id = tt
matches json (volume_prune_response x y) id = tt
matches json (network_list_response x y) id = tt
matches json (network_action_response x y) id = tt
matches json (network_prune_response x y) id = tt
matches json (container_logs_chunk x y) id = tt
matches json (container_logs_error x y) id = tt
matches json (event_stream_data x y) id = tt
matches json (event_stream_error x y) id = tt
matches json (error_response x) id = tt

-- The manager reads in a request the ID that the agent has set in it, unless the request is about
-- a subscription to events, where it reads none; and the ID of a command that the manager sends for a
-- request is the one that the agent reads.
pub request_id_set :
    (json : Payload → String) (t u : AgentType) (id : String)
    → with_request_id t id ≡ some u
    → (request_id (some u) ≡ (elim (is_subscription t) [ true ↦ "" | false ↦ id ]))
      × (manager_request_id (command_envelope json u) ≡ request_id (some u))
request_id_set json t u id h = subst (Matches json t id) h (matches json t id)
