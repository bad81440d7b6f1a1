-- ===== src/Connect/Loops.antt =====
-- The loops of agent/internal/connect.go on what they meet, one after another: `receiveLoop` on what the
-- stream delivers, `heartbeatLoop` on its ticks, `reconnect` on its attempts. A list that ends without
-- an end of the loop is a loop that still waits. `sendRequest` is here too.
pub mod Ends
use podman_manager.Prelude.{
  ℕ, String, Bool, true, false, ◌||◌, Option, none, some, List, [], ◌∷◌, ◌++◌, Result, ok, err,
  if◌then◌else◌,
}
use podman_manager.Agent.Messages.{AgentType, AgentMessage, ManagerMessage, heartbeat_ack}
use podman_manager.Connect.Manager.{
  Manager, cancel_all_streams, trigger_reconnect, close_connection, deliver,
  register_pending_request, remove_pending_request,
}
use podman_manager.Connect.Requests.{set_agent_request_id, manager_request_id}
use podman_manager.Connect.Commands.{Engine, Encoder, handle_stream_command}

-- What `Recv` gives: a message, with the context that a stream would run in; or an error, and whether
-- the loop's context has ended and whether the error is `io.EOF`.
pub data Received : Type 0 where
  message : ℕ → ManagerMessage → Received
  failed : Bool → Bool → Received

-- the state after the loop, and what it sends
unfoldable pub receive_loop : Engine → Encoder → List Received → Manager → List AgentType × Manager
unfolding handle_stream_command cancel_all_streams trigger_reconnect deliver manager_request_id
receive_loop env enc [] m = ([], m)
receive_loop env enc (failed is_cancelled is_eof ∷ rs) m =
    let ended = cancel_all_streams m in
    ([], if is_cancelled || is_eof then ended else trigger_reconnect ended)
receive_loop env enc (message c msg ∷ rs) m =
    let (handled, sent, after) = handle_stream_command env enc c msg m in
    let next = if handled then after else deliver (manager_request_id msg) msg after in
    let (more, last) = receive_loop env enc rs next in (sent ++ more, last)

-- A tick of the heartbeat: whether it can be sent (if not, whether the context has ended), and what
-- comes first then: an answer, nil from a closed connection, the timeout or the end of the context.
pub data Beat : Type 0 where
  unsent : Bool → Beat
  answered : Option ManagerMessage → Beat
  timed_out context_done : Beat

abbrev pub is_ack : Option ManagerMessage → Bool
is_ack none = false
is_ack (some (heartbeat_ack id)) = true
is_ack (some _) = false

-- one tick, with the ID and the channel of its request: whether the loop goes on, and the state
unfoldable pub heartbeat_tick : String → ℕ → Beat → Manager → Bool × Manager
unfolding register_pending_request remove_pending_request trigger_reconnect
heartbeat_tick id ch beat m =
    let answered_state = remove_pending_request id (register_pending_request id ch m) in
    elim beat [
      | unsent is_cancelled ↦
          (false, if is_cancelled then answered_state else trigger_reconnect answered_state)
      | answered response ↦
          if is_ack response
          then (true, answered_state)
          else (false, trigger_reconnect answered_state)
      | timed_out ↦ (false, trigger_reconnect answered_state)
      | context_done ↦ (false, answered_state)
    ]

unfoldable pub heartbeat_loop : List ((String × ℕ) × Beat) → Manager → Manager
unfolding heartbeat_tick
heartbeat_loop [] m = m
heartbeat_loop (((id, ch), beat) ∷ beats) m =
    let (goes_on, after) = heartbeat_tick id ch beat m in
    let last = heartbeat_loop beats after in if goes_on then last else after

-- an attempt to connect again, after its delay: the context ends, or dialling fails, or the stream on
-- the new connection fails, or there are a connection and a stream
pub data Attempt : Type 0 where
  context_ended dial_fails : Attempt
  stream_fails : ℕ → Attempt
  connects : ℕ → ℕ → Attempt

-- the loop of `reconnect`
unfoldable pub attempt_all : List Attempt → Manager → Manager
attempt_all [] m = m
attempt_all (context_ended ∷ others) m = m
attempt_all (dial_fails ∷ others) m = attempt_all others m
attempt_all (stream_fails conn ∷ others) m = attempt_all others (record m { conn = some conn })
attempt_all (connects conn stream ∷ others) m = record m { conn = some conn; stream = some stream }

unfoldable pub reconnect : List Attempt → Manager → Manager
unfolding attempt_all close_connection
reconnect attempts m = attempt_all attempts (close_connection m)

pub data RequestError : Type 0 where
  no_request_id not_connected send_failed connection_lost : RequestError
  context_failed : String → RequestError

-- what comes first after the request is sent: what lies in its channel, or the end of the context
pub data Waited : Type 0 where
  received : Option ManagerMessage → Waited
  ended : String → Waited

abbrev pub answer_of : Waited → Result RequestError ManagerMessage
answer_of (received none) = err connection_lost
answer_of (received (some msg)) = ok msg
answer_of (ended text) = err (context_failed text)

-- `sendRequest` up to the wait: the message that goes out, with its ID. `sends` is whether the stream
-- takes it.
unfoldable pub begin_request :
    AgentMessage → String → ℕ → Bool → Manager → Result RequestError AgentMessage × Manager
unfolding set_agent_request_id register_pending_request remove_pending_request trigger_reconnect
begin_request msg id ch sends m =
    let (hothersid, request) = set_agent_request_id msg id in
    let registered = register_pending_request id ch m in
    let removed = remove_pending_request id registered in
    if hothersid
    then elim m.stream [
      | none ↦ (err not_connected, removed)
      | some s ↦
          if sends then (ok request, registered) else (err send_failed, trigger_reconnect removed)
    ]
    else (err no_request_id, m)

-- the rest of `sendRequest`
unfoldable pub end_request :
    String → Waited → Manager → Result RequestError ManagerMessage × Manager
unfolding remove_pending_request
end_request id waited m = (answer_of waited, remove_pending_request id m)
