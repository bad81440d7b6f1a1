-- ===== src/Agent/Messages/Conversion.antt =====
-- What reaches the caller of a command.
use podman_manager.Prelude.{String, ◌≢◌, some, arith}
use podman_manager.Agent.Messages.{
  AgentType, Payload, from_agent_message, inspect_container, act_on_container, create_container,
  list_images, act_on_image, prune_images, host_info,
}

-- No message of an agent becomes an answer about one container, about images or about the host:
-- whatever an agent sends, the caller of such a command gets another kind of message.
pub from_agent_message_unanswered :
    (t : AgentType) (id : String) (p : Payload)
    → (from_agent_message (some t) ≢ some (inspect_container id p))
      × (from_agent_message (some t) ≢ some (act_on_container id p))
      × (from_agent_message (some t) ≢ some (create_container id p))
      × (from_agent_message (some t) ≢ some (list_images id p))
      × (from_agent_message (some t) ≢ some (act_on_image id p))
      × (from_agent_message (some t) ≢ some (prune_images id p))
      × (from_agent_message (some t) ≢ some (host_info id p))
unfolding from_agent_message
from_agent_message_unanswered t id p = ground arith
