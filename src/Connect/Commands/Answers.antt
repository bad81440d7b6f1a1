-- ===== src/Connect/Commands/Answers.antt =====
-- How the agent (agent/internal/connect.go) answers what the manager (backend/internal/agent/server.go)
-- sends for a request.
use podman_manager.Prelude.{ℕ, String, Bool, true, false, [], ◌∷◌, Result, ok, err, ◌≡◌, refl}
use podman_manager.Agent.Messages.{
  Payload, AgentType, request_id_of, command_envelope, convert, bool_text, heartbeat,
  container_list_request, container_inspect_request, container_start_request,
  container_stop_request, container_restart_request, container_remove_request,
  container_create_request, container_logs_request, image_list_request, image_pull_request,
  image_remove_request, image_prune_request, volume_list_request, volume_prune_request,
  volume_create_request, volume_remove_request, network_list_request, network_prune_request,
  network_create_request, network_remove_request, network_connect_request,
  network_disconnect_request, host_info_request, event_stream_subscribe, event_stream_unsubscribe,
  container_list_response, volume_list_response, volume_action_response, volume_prune_response,
  network_list_response, network_action_response, network_prune_response, container_logs_chunk,
  container_logs_error, event_stream_data, event_stream_error, error_response,
}
use podman_manager.Connect.Manager.{Manager}
use podman_manager.Connect.Requests.{manager_request_id}
use podman_manager.Connect.Commands.{
  Engine, Encoder, Handled, action_result, answer, error_agent_message, code_of, handle_code,
  handle_stream_command,
}

-- the requests for which the manager sends a command that the agent has
abbrev pub is_command : AgentType → Bool
is_command (container_list_request x y) = true
is_command (volume_list_request x) = true
is_command (volume_prune_request x) = true
is_command (volume_create_request x y z) = true
is_command (volume_remove_request x y z) = true
is_command (network_list_request x) = true
is_command (network_prune_request x) = true
is_command (network_create_request x y z) = true
is_command (network_remove_request x y) = true
is_command (network_connect_request x y z) = true
is_command (network_disconnect_request x y z) = true
is_command t = false

-- one answer, which has the ID, also when the manager has converted it
abbrev pub IsAnswered : Manager → String → Handled → Type 0
IsAnswered m id h =
    (a : AgentType) × (h ≡ (true, a ∷ [], m))
    × (request_id_of a ≡ id)
    × (manager_request_id (convert a) ≡ id)

IsAnswered-of {ℓ} :
    {A : Type ℓ} (m : Manager) (id : String) (r : Result String A) (f : A → AgentType)
    → ((a : A) → (request_id_of (f a) ≡ id) × (manager_request_id (convert (f a)) ≡ id))
    → IsAnswered m id (true, answer id r f ∷ [], m)
unfolding error_agent_message request_id_of convert manager_request_id
IsAnswered-of m id (ok a) f h = (f a, refl, (h a).0, (h a).1)
IsAnswered-of m id (err e) f h = (error_agent_message id e, refl, refl, refl)

command-IsAnswered :
    (json : Payload → String) (env : Engine) (enc : Encoder) (c : ℕ) (m : Manager) (t : AgentType)
    → is_command t ≡ true
    → IsAnswered m (request_id_of t) (handle_stream_command env enc c (command_envelope json t) m)
unfolding handle_stream_command command_envelope handle_code code_of request_id_of convert
    manager_request_id
command-IsAnswered json env enc c m (heartbeat x) h = cc
command-IsAnswered json env enc c m (container_list_request x y) h =
    IsAnswered-of m x (env.list_containers (env.parse_bool (bool_text y)))
      (λ cs. container_list_response x (enc.containers cs)) (λ _. (refl, refl))
command-IsAnswered json env enc c m (container_inspect_request x) h = cc
command-IsAnswered json env enc c m (container_start_request x) h = cc
command-IsAnswered json env enc c m (container_stop_request x) h = cc
command-IsAnswered json env enc c m (container_restart_request x) h = cc
command-IsAnswered json env enc c m (container_remove_request x) h = cc
command-IsAnswered json env enc c m (container_create_request x) h = cc
command-IsAnswered json env enc c m (container_logs_request x) h = cc
command-IsAnswered json env enc c m (image_list_request x) h = cc
command-IsAnswered json env enc c m (image_pull_request x) h = cc
command-IsAnswered json env enc c m (image_remove_request x) h = cc
command-IsAnswered json env enc c m (image_prune_request x) h = cc
command-IsAnswered json env enc c m (volume_list_request x) h =
    IsAnswered-of m x (env.list_volumes) (λ vs. volume_list_response x (enc.volumes vs))
      (λ _. (refl, refl))
command-IsAnswered json env enc c m (volume_prune_request x) h = (_, refl, refl, refl)
command-IsAnswered json env enc c m (volume_create_request x y z) h =
    IsAnswered-of m x (env.parse_volume (json z))
      (λ v.
        volume_action_response x
          (enc.volume_action v.name (action_result (env.create_volume v) "volume created")))
      (λ _. (refl, refl))
command-IsAnswered json env enc c m (volume_remove_request x y z) h = (_, refl, refl, refl)
command-IsAnswered json env enc c m (network_list_request x) h =
    IsAnswered-of m x (env.list_networks) (λ ns. network_list_response x (enc.networks ns))
      (λ _. (refl, refl))
command-IsAnswered json env enc c m (network_prune_request x) h = (_, refl, refl, refl)
command-IsAnswered json env enc c m (network_create_request x y z) h =
    IsAnswered-of m x (env.parse_network (json z))
      (λ n.
        network_action_response x
          (enc.network_action n.name "" (action_result (env.create_network n) "network created")))
      (λ _. (refl, refl))
command-IsAnswered json env enc c m (network_remove_request x y) h = (_, refl, refl, refl)
command-IsAnswered json env enc c m (network_connect_request x y z) h = (_, refl, refl, refl)
command-IsAnswered json env enc c m (network_disconnect_request x y z) h = (_, refl, refl, refl)
command-IsAnswered json env enc c m (host_info_request x) h = cc
command-IsAnswered json env enc c m (event_stream_subscribe x) h = cc
command-IsAnswered json env enc c m (event_stream_unsubscribe x) h = cc
command-IsAnswered json env enc c m (container_list_response x y) h = cc
command-IsAnswered json env enc c m (volume_list_response x y) h = cc
command-IsAnswered json env enc c m (volume_action_response x y) h = cc
command-IsAnswered json env enc c m (volume_prune_response x y) h = cc
command-IsAnswered json env enc c m (network_list_response x y) h = cc
command-IsAnswered json env enc c m (network_action_response x y) h = cc
command-IsAnswered json env enc c m (network_prune_response x y) h = cc
command-IsAnswered json env enc c m (container_logs_chunk x y) h = cc
command-IsAnswered json env enc c m (container_logs_error x y) h = cc
command-IsAnswered json env enc c m (event_stream_data x y) h = cc
command-IsAnswered json env enc c m (event_stream_error x y) h = cc
command-IsAnswered json env enc c m (error_response x) h = cc

others_ignored :
    (json : Payload → String) (env : Engine) (enc : Encoder) (c : ℕ) (m : Manager) (t : AgentType)
    → is_command t ≡ false
    → handle_stream_command env enc c (command_envelope json t) m ≡ (false, [], m)
unfolding handle_stream_command command_envelope handle_code code_of request_id_of
others_ignored json env enc c m (heartbeat x) h = refl
others_ignored json env enc c m (container_list_request x y) h = cc
others_ignored json env enc c m (container_inspect_request x) h = refl
others_ignored json env enc c m (container_start_request x) h = refl
others_ignored json env enc c m (container_stop_request x) h = refl
others_ignored json env enc c m (container_restart_request x) h = refl
others_ignored json env enc c m (container_remove_request x) h = refl
others_ignored json env enc c m (container_create_request x) h = refl
others_ignored json env enc c m (container_logs_request x) h = refl
others_ignored json env enc c m (image_list_request x) h = refl
others_ignored json env enc c m (image_pull_request x) h = refl
others_ignored json env enc c m (image_remove_request x) h = refl
others_ignored json env enc c m (image_prune_request x) h = refl
others_ignored json env enc c m (volume_list_request x) h = cc
others_ignored json env enc c m (volume_prune_request x) h = cc
others_ignored json env enc c m (volume_create_request x y z) h = cc
others_ignored json env enc c m (volume_remove_request x y z) h = cc
others_ignored json env enc c m (network_list_request x) h = cc
others_ignored json env enc c m (network_prune_request x) h = cc
others_ignored json env enc c m (network_create_request x y z) h = cc
others_ignored json env enc c m (network_remove_request x y) h = cc
others_ignored json env enc c m (network_connect_request x y z) h = cc
others_ignored json env enc c m (network_disconnect_request x y z) h = cc
others_ignored json env enc c m (host_info_request x) h = refl
others_ignored json env enc c m (event_stream_subscribe x) h = refl
others_ignored json env enc c m (event_stream_unsubscribe x) h = refl
others_ignored json env enc c m (container_list_response x y) h = refl
others_ignored json env enc c m (volume_list_response x y) h = refl
others_ignored json env enc c m (volume_action_response x y) h = refl
others_ignored json env enc c m (volume_prune_response x y) h = refl
others_ignored json env enc c m (network_list_response x y) h = refl
others_ignored json env enc c m (network_action_response x y) h = refl
others_ignored json env enc c m (network_prune_response x y) h = refl
others_ignored json env enc c m (container_logs_chunk x y) h = refl
others_ignored json env enc c m (container_logs_error x y) h = refl
others_ignored json env enc c m (event_stream_data x y) h = refl
others_ignored json env enc c m (event_stream_error x y) h = refl
others_ignored json env enc c m (error_response x) h = refl

-- Whatever Podman gives, the agent answers the command for a list of containers, or for an action on
-- volumes or networks, with one message. It has the ID of the request, and so has what the manager
-- makes of it. The commands for all other requests are none that the agent knows: it sends nothing.
pub handle_stream_command_answers :
    (json : Payload → String) (env : Engine) (enc : Encoder) (c : ℕ) (m : Manager) (t : AgentType)
    → let handled = handle_stream_command env enc c (command_envelope json t) m in
      (is_command t ≡ true → IsAnswered m (request_id_of t) handled)
      × (is_command t ≡ false → handled ≡ (false, [], m))
handle_stream_command_answers json env enc c m t =
    (command-IsAnswered json env enc c m t, others_ignored json env enc c m t)
