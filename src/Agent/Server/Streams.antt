-- ===== src/Agent/Server/Streams.antt =====
-- The life of one stream.
use podman_manager.Agent.Messages.{AgentMessage, heartbeat}
use podman_manager.Prelude.{
  ℕ, String, ◌≡◌, true, Option, none, some, List, inl, inr, Option-cases, Bool-cases, arith, Result,
  ok, err, ◌==◌, ◌⊎◌, ◌||◌, refl, ap, ◌∙◌, [], ◌∷◌, lookup, eq_refl, lookup-put, Bool, sym,
}
use podman_manager.Agent.Registry
use podman_manager.Agent.Registry.{AgentInfo, Registry as Agents, get, update_heartbeat, with_times}
use podman_manager.Agent.Registry.Consistency.{get-unregister, get_registered}
use podman_manager.Agent.Server.{
  Server, Metadata, Credentials, Received, Error, credentials_from_metadata, valid_credential,
  open_stream, close_stream, serve, connect, invalid_credentials, new_agent, serve_message,
  route_response, message, nothing, ended, broken, begin_command, not_connected,
}

abbrev shown : Option Metadata → Credentials
shown md = credentials_from_metadata md

open_stream_cases :
    (md : Option Metadata) (now stream : ℕ) (order : List String) (s : Server)
    → (open_stream md now stream order s ≡ err invalid_credentials)
      ⊎ ((t : Server) × (open_stream md now stream order s ≡ ok ((shown md).agent_id, t))
          × (valid_credential (shown md).agent_id (shown md).credential order s ≡ true))
unfolding open_stream
open_stream_cases md now stream order s =
    elim (Bool-cases (valid_credential (shown md).agent_id (shown md).credential order s)) [
      | inr e ↦ inl (ground arith)
      | inl e ↦ elim (Bool-cases ((shown md).agent_id == "" || (shown md).credential == "")) [
        | inl f ↦ inl (ground arith)
        | inr f ↦ inr (
          record s {
            registry = Registry.register now (some (new_agent (shown md) now stream)) s.registry;
          },
          ground arith,
          e,
        )
      ]
    ]

module _ (md : Option Metadata) (now stream : ℕ) (order : List String) (rs : List Received)
    (s : Server) where
  connect_refused :
      open_stream md now stream order s ≡ err invalid_credentials
      → connect md now stream order rs s ≡ (s, some (err invalid_credentials))
  unfolding connect
  connect_refused h = ground arith

  connect_served :
      (t : Server) (agent_id : String) (done : Result Error (Unit {0}))
      → open_stream md now stream order s ≡ ok (agent_id, t)
      → (serve agent_id rs t).1 ≡ some done
      → connect md now stream order rs s
        ≡ (close_stream agent_id (serve agent_id rs t).0, some done)
  unfolding connect
  connect_served t agent_id done h e = ground arith

  connect_waits :
      (t : Server) (agent_id : String)
      → open_stream md now stream order s ≡ ok (agent_id, t)
      → (serve agent_id rs t).1 ≡ none
      → (connect md now stream order rs s).1 ≡ none
  unfolding connect
  connect_waits t agent_id h e = ground arith

  -- A stream that has ended was either refused, and has changed nothing, or it showed a valid
  -- credential, and its agent is no longer registered: on every way out of the loop, errors
  -- included.
  pub connect_ended :
      (done : Result Error (Unit {0}))
      → (connect md now stream order rs s).1 ≡ some done
      → (connect md now stream order rs s ≡ (s, some (err invalid_credentials)))
        ⊎ ((valid_credential (shown md).agent_id (shown md).credential order s ≡ true)
            × (Registry.get (shown md).agent_id (connect md now stream order rs s).0.registry
                ≡ none))
  connect_ended done over = elim (open_stream_cases md now stream order s) [
    | inl e ↦ inl (connect_refused e)
    | inr (t, e, valid) ↦
        let id = (shown md).agent_id in
        elim (Option-cases (serve id rs t).1) [
          | inl w ↦ absurd (cc (over, connect_waits t id e w))
          | inr (d, w) ↦ inr (
            valid,
            rw (connect_served t id d e w)
                (unfold close_stream in get-unregister id (serve id rs t).0.registry),
          )
        ]
  ]

-- the stream of the agent that a registry has for an ID
abbrev pub stream_of : Option AgentInfo → Option (Option ℕ)
stream_of none = none
stream_of (some agent) = some agent.stream

update_heartbeat_stream :
    (id : String) (now : ℕ) (r : Agents)
    → stream_of (get id (update_heartbeat id now r)) ≡ stream_of (get id r)
unfolding get update_heartbeat
update_heartbeat_stream id now r = elim (Option-cases (lookup id r.agents)) [
  | inl e ↦ ground arith
  | inr (agent, e) ↦
      let beaten : AgentInfo = record agent { last_heartbeat = now } in
      ground (arith, eq_refl id, lookup-put id id beaten r.agents)
]

route_response_registry :
    (id : String) (msg : AgentMessage) (s : Server)
    → (route_response id msg s).registry ≡ s.registry
unfolding route_response
route_response_registry id msg s = ground arith

serve_message_stream :
    (id : String) (received : Received) (s : Server)
    → stream_of (get id (serve_message id received s).0.registry) ≡ stream_of (get id s.registry)
unfolding serve_message
serve_message_stream id ended s = refl
serve_message_stream id broken s = refl
serve_message_stream id nothing s = refl
serve_message_stream id (message (some (heartbeat h)) now sent) s =
    update_heartbeat_stream id now s.registry
serve_message_stream id (message msg now sent) s =
    ap (λ r. stream_of (get id r)) (route_response_registry id msg s)

-- what the loop of `Connect` takes leaves the agent with the stream that it has, or without one
serve_stream :
    (id : String) (rs : List Received) (s : Server)
    → stream_of (get id (serve id rs s).0.registry) ≡ stream_of (get id s.registry)
unfolding serve
serve_stream id [] s = refl
serve_stream id (r ∷ rs) s =
    let next = (serve_message id r s).0 in
    let kept = serve_message_stream id r s in
    elim (Option-cases (serve_message id r s).1) [
      | inl e ↦ rw (e, serve) (serve_stream id rs next ∙ kept)
      | inr (d, e) ↦ rw (e, serve) kept
    ]

abbrev stream_in : Result Error (String × Server) → Option (Option ℕ)
stream_in (ok (id, s)) = stream_of (get id s.registry)
stream_in (err e) = none

open_stream_stream :
    (md : Option Metadata) (now stream : ℕ) (order : List String) (s t : Server) (id : String)
    → open_stream md now stream order s ≡ ok (id, t)
    → stream_of (get id t.registry) ≡ some (some stream)
unfolding open_stream with_times
open_stream_stream md now stream order s t id h =
    let c = shown md in
    let agent = new_agent c now stream in
    let opened : Server = record s { registry = Registry.register now (some agent) s.registry } in
    elim (Bool-cases (valid_credential c.agent_id c.credential order s)) [
      | inr e ↦ absurd (ground arith)
      | inl e ↦ elim (Bool-cases (c.agent_id == "" || c.credential == "")) [
        | inl f ↦ absurd (ground arith)
        | inr f ↦
            let same : open_stream md now stream order s ≡ ok (c.agent_id, opened) = ground arith in
            ap (λ r. stream_in r) (sym h ∙ same)
            ∙ ap (λ a. stream_of a) (get_registered now agent s.registry (ground arith))
      ]
    ]

begin_command_gone :
    (id : String) (sent : Bool) (s : Server)
    → stream_of (get id s.registry) ≡ none
    → begin_command id sent s ≡ (s, err not_connected)
unfolding begin_command
begin_command_gone id sent s h = elim (Option-cases (get id s.registry)) [
  | inl e ↦ ground arith
  | inr (agent, e) ↦ absurd (cc (h, ap (λ a. stream_of a) e))
]

closed_gone : (id : String) (s : Server) → get id (close_stream id s).registry ≡ none
unfolding close_stream
closed_gone id s = get-unregister id s.registry

-- When an agent opens a second stream while its first one is open, the registry has the second one
-- whatever the two receive, until the first one ends. Its deferred `Unregister` then takes the agent
-- out, and from then on no command can be sent to it, whatever the second stream still receives,
-- heartbeats included.
pub close_stream_drops_newer :
    (md md' : Option Metadata) (now later first second : ℕ) (order order' : List String)
    (before between after : List Received) (id : String) (s opened reopened : Server) (sent : Bool)
    → open_stream md now first order s ≡ ok (id, opened)
    → open_stream md' later second order' (serve id before opened).0 ≡ ok (id, reopened)
    → let both = (serve id between reopened).0 in
      let left = (serve id after (close_stream id both)).0 in
      (stream_of (get id both.registry) ≡ some (some second))
      × (begin_command id sent left ≡ (left, err not_connected))
close_stream_drops_newer md md' now later first second order order' before between after id s opened
      reopened sent h k =
    let both = (serve id between reopened).0 in
    let closed = close_stream id both in
    (
      serve_stream id between reopened
          ∙ open_stream_stream md' later second order' (serve id before opened).0 reopened id k,
      begin_command_gone id sent (serve id after closed).0
          (serve_stream id after closed ∙ ap (λ a. stream_of a) (closed_gone id both)),
    )
