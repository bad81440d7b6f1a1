-- ===== src/Examples/AgentExamples.antt =====
-- backend/internal/agent at concrete inputs
use podman_manager.Prelude.{◌≡◌, ◌≢◌, refl, some, List, [], ◌∷◌, lookup, put}
use podman_manager.Agent.Registry.{
  AgentInfo, new_registry, with_times, register, get, get_by_host, evict,
}
use podman_manager.Agent.Registry.Consistency.{
  Operation, registers, step, run, run_one_agent_per_host,
}
use podman_manager.Agent.Messages.{
  volume_list_response, from_agent_message, inspect_container, act_on_container, create_container,
  list_images, act_on_image, prune_images, host_info,
}
use podman_manager.Agent.Messages.Conversion.{from_agent_message_unanswered}

abbrev nas : AgentInfo
nas = record {
  id = "a1";
  hostname = "nas";
  agent_version = "1.0";
  podman_version = "5.0";
  capabilities = [];
  connected_at = 0;
  last_heartbeat = 0;
  stream = some 1;
}

abbrev reinstalled : AgentInfo
reinstalled = record nas { id = "a2"; stream = some 2 }

abbrev at_three : List Operation
at_three = registers 3 (some nas) ∷ []

run_one_agent_per_host_example :
    (get_by_host "nas" (run new_registry at_three) ≡ some (with_times 3 nas)) × (nas.id ≡ nas.id)
unfolding get run step register with_times evict lookup put
run_one_agent_per_host_example =
    run_one_agent_per_host at_three "a1" "a1" (with_times 3 nas) (with_times 3 nas) refl refl refl
      refl

from_agent_message_unanswered_example :
    (from_agent_message (some (volume_list_response "r1" (1 ∷ [])))
      ≢ some (inspect_container "r1" (1 ∷ [])))
    × (from_agent_message (some (volume_list_response "r1" (1 ∷ [])))
        ≢ some (act_on_container "r1" (1 ∷ [])))
    × (from_agent_message (some (volume_list_response "r1" (1 ∷ [])))
        ≢ some (create_container "r1" (1 ∷ [])))
    × (from_agent_message (some (volume_list_response "r1" (1 ∷ [])))
        ≢ some (list_images "r1" (1 ∷ [])))
    × (from_agent_message (some (volume_list_response "r1" (1 ∷ [])))
        ≢ some (act_on_image "r1" (1 ∷ [])))
    × (from_agent_message (some (volume_list_response "r1" (1 ∷ [])))
        ≢ some (prune_images "r1" (1 ∷ [])))
    × (from_agent_message (some (volume_list_response "r1" (1 ∷ [])))
        ≢ some (host_info "r1" (1 ∷ [])))
from_agent_message_unanswered_example =
    from_agent_message_unanswered (volume_list_response "r1" (1 ∷ [])) "r1" (1 ∷ [])
