-- ===== src/Agent/Registry/Consistency.antt =====
-- The two maps of the registry agree.
use podman_manager.Prelude.{
  ℕ, String, ◌≡◌, ◌≢◌, false, Option, none, some, List, [], ◌∷◌, ◌==◌, eq_iff, eq_refl, inl, inr,
  Option-cases, Bool-cases, arith, lookup, delete, lookup-put, lookup-delete,
}
use podman_manager.Agent.Registry.{
  AgentInfo, Registry, new_registry, with_times, evict, register, unregister, get, get_by_host,
  update_heartbeat,
}

-- Every agent stands under its own ID, which is not empty, and is the one that its host names.
pub record IsConsistent (r : Registry) : Type 0 where
  pub own : (k : String) (a : AgentInfo) → lookup k r.agents ≡ some a → a.id ≡ k
  pub named : (k : String) (a : AgentInfo) → lookup k r.agents ≡ some a → (k == "") ≡ false
  pub linked :
      (k : String) (a : AgentInfo)
      → lookup k r.agents ≡ some a
      → (a.hostname == "") ≡ false
      → lookup a.hostname r.by_host ≡ some k

pub new_registry-IsConsistent : IsConsistent new_registry
unfolding lookup
new_registry-IsConsistent = record { own = λ k a h. cc; named = λ k a h. cc; linked = λ k a h. cc }

-- the agents that are left when an agent with this ID takes the host
lookup-evict :
    (o : Option String) (id k : String) (m : List (String × AgentInfo)) (a : AgentInfo)
    → lookup k (evict o id m) ≡ some a
    → (lookup k m ≡ some a) × (((id == k) ≡ false) → o ≢ some k)
unfolding evict
lookup-evict none id k m a h = (h, λ n e. cc)
lookup-evict (some p) id k m a h = (
  ground (arith, lookup-delete p k m, eq_iff p k),
  λ n e. ground (arith, lookup-delete p k m, eq_iff p k, eq_iff p id, eq_iff id k),
)

pub register-IsConsistent :
    (now : ℕ) (o : Option AgentInfo) (r : Registry)
    → IsConsistent r
    → IsConsistent (register now o r)
unfolding register
register-IsConsistent now none r v = v
register-IsConsistent now (some x) r v = elim (Bool-cases (x.id == "")) [
  | inl e ↦ rw e v
  | inr e ↦ rw e (record {
    own = λ k a. rw lookup-put (
        ground (
          arith,
          eq_iff x.id k,
          lookup-evict (lookup x.hostname r.by_host) x.id k r.agents a,
          v.own k a,
        ));
    named = λ k a. rw lookup-put (
        ground (
          arith,
          eq_iff x.id k,
          lookup-evict (lookup x.hostname r.by_host) x.id k r.agents a,
          v.named k a,
        ));
    linked = λ k a. rw lookup-put (
        ground (
          arith,
          eq_iff x.id k,
          eq_iff x.hostname a.hostname,
          eq_iff x.hostname "",
          lookup-put x.hostname a.hostname x.id r.by_host,
          lookup-evict (lookup x.hostname r.by_host) x.id k r.agents a,
          v.linked k a,
        ));
  })
]

unregister-IsConsistent :
    (agent_id : String) (r : Registry) → IsConsistent r → IsConsistent (unregister agent_id r)
unfolding unregister
unregister-IsConsistent agent_id r v = elim (Option-cases (lookup agent_id r.agents)) [
  | inl e ↦ rw (e, unregister) v
  | inr (x, e) ↦
      rw (e, unregister)
        (record {
          own = λ k a. rw lookup-delete (ground (arith, v.own k a));
          named = λ k a. rw lookup-delete (ground (arith, v.named k a));
          linked = λ k a. rw lookup-delete (
              ground (
                arith,
                eq_iff agent_id k,
                eq_iff k agent_id,
                eq_iff x.hostname a.hostname,
                lookup-delete x.hostname a.hostname r.by_host,
                v.linked k a,
              ));
        })
]

update_heartbeat-IsConsistent :
    (agent_id : String) (now : ℕ) (r : Registry)
    → IsConsistent r
    → IsConsistent (update_heartbeat agent_id now r)
unfolding update_heartbeat
update_heartbeat-IsConsistent agent_id now r v = elim (Option-cases (lookup agent_id r.agents)) [
  | inl e ↦ rw (e, update_heartbeat) v
  | inr (x, e) ↦
      rw (e, update_heartbeat)
        (record {
          own = λ k a. rw lookup-put (ground (arith, eq_iff agent_id k, v.own k a, v.own k x));
          named =
              λ k a. rw lookup-put (ground (arith, eq_iff agent_id k, v.named k a, v.named k x));
          linked =
              λ k a. rw lookup-put (ground (arith, eq_iff agent_id k, v.linked k a, v.linked k x));
        })
]

pub data Operation : Type 0 where
  registers : ℕ → Option AgentInfo → Operation
  unregisters : String → Operation
  beats : String → ℕ → Operation

unfoldable pub step : Registry → Operation → Registry
step r (registers now agent) = register now agent r
step r (unregisters agent_id) = unregister agent_id r
step r (beats agent_id now) = update_heartbeat agent_id now r

unfoldable pub run : Registry → List Operation → Registry
run r [] = r
run r (o ∷ os) = run (step r o) os

step-IsConsistent : (r : Registry) (o : Operation) → IsConsistent r → IsConsistent (step r o)
unfolding step
step-IsConsistent r (registers now agent) v = register-IsConsistent now agent r v
step-IsConsistent r (unregisters agent_id) v = unregister-IsConsistent agent_id r v
step-IsConsistent r (beats agent_id now) v = update_heartbeat-IsConsistent agent_id now r v

run-IsConsistent : (r : Registry) (os : List Operation) → IsConsistent r → IsConsistent (run r os)
unfolding run
run-IsConsistent r [] v = v
run-IsConsistent r (o ∷ os) v = run-IsConsistent (step r o) os (step-IsConsistent r o v)

-- Whatever agents register, beat and leave, and in whatever order, each agent in the registry is
-- the one that a lookup of its host finds, and so two registered agents on one named host are the
-- same.
pub run_one_agent_per_host :
    (os : List Operation) (k j : String) (a b : AgentInfo)
    → get k (run new_registry os) ≡ some a
    → get j (run new_registry os) ≡ some b
    → a.hostname ≡ b.hostname
    → (a.hostname == "") ≡ false
    → (get_by_host a.hostname (run new_registry os) ≡ some a) × (k ≡ j)
unfolding get get_by_host
run_one_agent_per_host os k j a b here there same named =
    let v = run-IsConsistent new_registry os new_registry-IsConsistent in
    let p = v.linked k a here named in
    let q = v.linked j b there (rw same at named) in (ground arith, ground arith)

pub get_registered :
    (now : ℕ) (agent : AgentInfo) (r : Registry)
    → (agent.id == "") ≡ false
    → get agent.id (register now (some agent) r) ≡ some (with_times now agent)
unfolding get register
get_registered now agent r named = ground (
  arith,
  eq_refl agent.id,
  lookup-put agent.id agent.id (with_times now agent)
      (evict (lookup agent.hostname r.by_host) agent.id r.agents),
)

pub get-unregister :
    (agent_id : String) (r : Registry) → get agent_id (unregister agent_id r) ≡ none
unfolding get unregister
get-unregister agent_id r =
    ground (arith, eq_refl agent_id, lookup-delete agent_id agent_id r.agents)

-- After `Register` of an agent that has an ID and a host, a lookup by ID and one by host both find
-- the agent, with the times that `Register` fills in.
pub get-register :
    (now : ℕ) (agent : AgentInfo) (r : Registry)
    → (agent.id == "") ≡ false
    → (agent.hostname == "") ≡ false
    → (get agent.id (register now (some agent) r) ≡ some (with_times now agent))
      × (get_by_host agent.hostname (register now (some agent) r) ≡ some (with_times now agent))
unfolding get get_by_host register
get-register now agent r named hosted =
    let left = evict (lookup agent.hostname r.by_host) agent.id r.agents in
    let p = lookup-put agent.id agent.id (with_times now agent) left in
    let q = lookup-put agent.hostname agent.hostname agent.id r.by_host in
    (
      ground (arith, eq_refl agent.id, p),
      ground (arith, eq_refl agent.id, eq_refl agent.hostname, p, q),
    )

-- In a registry whose two maps agree, an agent with an ID that takes over a host evicts the agent
-- with another ID that a lookup of the host found before.
pub register_evicts :
    (now : ℕ) (agent old : AgentInfo) (r : Registry)
    → IsConsistent r
    → (agent.id == "") ≡ false
    → get_by_host agent.hostname r ≡ some old
    → old.id ≢ agent.id
    → get old.id (register now (some agent) r) ≡ none
unfolding get get_by_host register evict
register_evicts now agent old r v named found other =
    elim (Option-cases (lookup agent.hostname r.by_host)) [
      | inl e ↦ absurd (ground arith)
      | inr (p, e) ↦
          let held : lookup p r.agents ≡ some old = ground arith in
          ground (
            arith,
            v.own p old held,
            eq_iff old.id agent.id,
            eq_iff agent.id old.id,
            lookup-put agent.id old.id (with_times now agent) (delete p r.agents),
            lookup-delete p old.id r.agents,
            eq_refl old.id,
          )
    ]
