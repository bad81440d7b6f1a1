-- ===== src/Agent/Registry.antt =====
-- backend/internal/agent/registry.go: the agents that are connected, by their ID and by their host.
-- The map of agents holds pointers; nothing but the registry writes through them after `Register`,
-- so that they are the records themselves here. A stream is named by a number.
pub mod Consistency
use podman_manager.Prelude.{
  ℕ, String, Bool, true, false, not, ◌&&◌, Option, none, some, List, [], ◌∷◌, ◌==◌, Map, lookup,
  put, delete, ℤ, pos, negsuc, ltb, ◌-◌, ◌+◌, suc, nat_eq, if◌then◌else◌,
}

pub record AgentInfo : Type 0 where
  pub id : String
  pub hostname : String
  pub agent_version : String
  pub podman_version : String
  pub capabilities : List String
  pub connected_at : ℕ
  pub last_heartbeat : ℕ
  pub stream : Option ℕ

pub record Registry : Type 0 where
  pub agents : Map AgentInfo
  pub by_host : Map String

abbrev pub new_registry : Registry
new_registry = record { agents = []; by_host = [] }

-- the defaults that `Register` fills in; `now` is its reading of the clock
unfoldable pub with_times : ℕ → AgentInfo → AgentInfo
with_times now agent =
    let connected_at : ℕ = if nat_eq agent.connected_at 0 then now else agent.connected_at in
    record agent {
      connected_at = connected_at;
      last_heartbeat = if nat_eq agent.last_heartbeat 0 then connected_at else agent.last_heartbeat;
    }

-- `delete(r.agents, previousID)` of the agent that had the host before
unfoldable pub evict : Option String → String → Map AgentInfo → Map AgentInfo
evict none id agents = agents
evict (some previous_id) id agents =
    if not (previous_id == id) then delete previous_id agents else agents

-- `none` is a nil pointer
unfoldable pub register : ℕ → Option AgentInfo → Registry → Registry
unfolding with_times evict
register now none r = r
register now (some agent) r = if agent.id == "" then r else record {
  agents =
      put agent.id (with_times now agent)
        (evict (lookup agent.hostname r.by_host) agent.id r.agents);
  by_host = if agent.hostname == "" then r.by_host else put agent.hostname agent.id r.by_host;
}

-- `r.byHost[hostname] == agentID`, where a missing key reads as the empty text
unfoldable pub points_to : String → String → Map String → Bool
points_to hostname agent_id by_host = elim (lookup hostname by_host) [
  | none ↦ "" == agent_id
  | some id ↦ id == agent_id
]

unfoldable pub unregister : String → Registry → Registry
unfolding points_to
unregister agent_id r = elim (lookup agent_id r.agents) [
  | none ↦ r
  | some agent ↦ record {
    agents = delete agent_id r.agents;
    by_host =
        if not (agent.hostname == "") && points_to agent.hostname agent_id r.by_host
        then delete agent.hostname r.by_host
        else r.by_host;
  }
]

unfoldable pub get : String → Registry → Option AgentInfo
get agent_id r = lookup agent_id r.agents

unfoldable pub get_by_host : String → Registry → Option AgentInfo
get_by_host hostname r = elim (lookup hostname r.by_host) [
  | none ↦ none
  | some agent_id ↦ lookup agent_id r.agents
]

unfoldable pub list : List String → Registry → List AgentInfo
list [] r = []
list (k ∷ ks) r =
    let rest = list ks r in elim (lookup k r.agents) [ none ↦ rest | some a ↦ a ∷ rest ]

unfoldable pub update_heartbeat : String → ℕ → Registry → Registry
update_heartbeat agent_id now r = elim (lookup agent_id r.agents) [
  | none ↦ r
  | some agent ↦ record r { agents = put agent_id (record agent { last_heartbeat = now }) r.agents }
]

-- `time.Now().Add(-timeout)`
abbrev pub before : ℕ → ℤ → ℕ
before now (pos n) = now - n
before now (negsuc n) = now + suc n

-- the loop of `StaleAgents`
unfoldable pub stale_from : ℕ → List String → Map AgentInfo → List AgentInfo
stale_from cutoff [] agents = []
stale_from cutoff (k ∷ ks) agents =
    let rest = stale_from cutoff ks agents in
    elim (lookup k agents) [
      | none ↦ rest
      | some a ↦ if ltb a.last_heartbeat cutoff then a ∷ rest else rest
    ]

unfoldable pub stale_agents : ℕ → ℤ → List String → Registry → List AgentInfo
unfolding stale_from
stale_agents now timeout order r = stale_from (before now timeout) order r.agents
