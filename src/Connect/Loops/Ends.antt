-- ===== src/Connect/Loops/Ends.antt =====
-- How the loops of agent/internal/connect.go end.
use podman_manager.Prelude.{
  ℕ, String, Bool, true, false, ◌||◌, none, some, List, [], ◌∷◌, ◌++◌, lookup, lookup-delete,
  if◌then◌else◌, ◌≡◌, refl, ◌∙◌, eq_refl, Bool-cases, inl, inr,
}
use podman_manager.Agent.Messages.{ManagerMessage}
use podman_manager.Connect.Manager.{
  Manager, cancel_all_streams, trigger_reconnect, close_connection, fail_pending_requests, deliver,
  register_pending_request, remove_pending_request,
}
use podman_manager.Connect.Requests.{manager_request_id}
use podman_manager.Connect.Commands.{Engine, Encoder, handle_stream_command}
use podman_manager.Connect.Loops.{
  Received, message, failed, receive_loop, Beat, unsent, answered, timed_out, context_done, is_ack,
  heartbeat_tick, Attempt, context_ended, dial_fails, stream_fails, connects, attempt_all,
  reconnect,
}

unfoldable pub messages : List (ℕ × ManagerMessage) → List Received
messages [] = []
messages ((c, msg) ∷ ms) = message c msg ∷ messages ms

-- When the stream of the agent ends, whatever came before, no stream of logs or events is left, and a
-- reconnection is asked for, unless the agent stops or the manager has closed the stream.
pub receive_loop_ends :
    (env : Engine) (enc : Encoder) (ms : List (ℕ × ManagerMessage)) (is_cancelled is_eof : Bool)
    (m : Manager)
    → let last = (receive_loop env enc (messages ms ++ (failed is_cancelled is_eof ∷ [])) m).1 in
      (last.log_streams ≡ [])
      × (last.event_streams ≡ [])
      × ((is_cancelled || is_eof) ≡ false → last.reconnect ≡ true)
unfolding receive_loop messages cancel_all_streams trigger_reconnect
receive_loop_ends env enc [] true is_eof m = (refl, refl, λ h. cc)
receive_loop_ends env enc [] false true m = (refl, refl, λ h. cc)
receive_loop_ends env enc [] false false m = (refl, refl, λ h. refl)
receive_loop_ends env enc ((c, msg) ∷ ms) is_cancelled is_eof m =
    let (handled, sent, after) = handle_stream_command env enc c msg m in
    let next = if handled then after else deliver (manager_request_id msg) msg after in
    receive_loop_ends env enc ms is_cancelled is_eof next

-- an attempt that fails, and lets the loop go on
abbrev pub is_failure : Attempt → Bool
is_failure context_ended = false
is_failure dial_fails = true
is_failure (stream_fails conn) = true
is_failure (connects conn stream) = false

unfoldable pub all_fail : List Attempt → Bool
all_fail [] = true
all_fail (a ∷ attempts) = if is_failure a then all_fail attempts else false

attempt_all_connects :
    (fails rest : List Attempt) (conn stream : ℕ) (m : Manager)
    → all_fail fails ≡ true
    → let last = attempt_all (fails ++ (connects conn stream ∷ rest)) m in
      (last.conn ≡ some conn) × (last.stream ≡ some stream) × (last.pending ≡ m.pending)
unfolding attempt_all all_fail
attempt_all_connects [] rest conn stream m h = (refl, refl, refl)
attempt_all_connects (context_ended ∷ fails) rest conn stream m h = cc
attempt_all_connects (dial_fails ∷ fails) rest conn stream m h =
    attempt_all_connects fails rest conn stream m h
attempt_all_connects (stream_fails c ∷ fails) rest conn stream m h =
    attempt_all_connects fails rest conn stream (record m { conn = some c }) h
attempt_all_connects (connects c s ∷ fails) rest conn stream m h = cc

-- After any number of attempts that fail, the first one that does not leaves the agent with its
-- connection and its stream, and with no pending request.
pub reconnect_connects :
    (fails rest : List Attempt) (conn stream : ℕ) (m : Manager)
    → all_fail fails ≡ true
    → let last = reconnect (fails ++ (connects conn stream ∷ rest)) m in
      (last.conn ≡ some conn) × (last.stream ≡ some stream) × (last.pending ≡ [])
unfolding reconnect close_connection fail_pending_requests
reconnect_connects fails rest conn stream m h =
    attempt_all_connects fails rest conn stream (close_connection m) h

removed : (id : String) (m : Manager) → lookup id (remove_pending_request id m).pending ≡ none
unfolding remove_pending_request
removed id m = lookup-delete id id m.pending ∙ rw (eq_refl id) refl

-- the beat after which the loop goes on
abbrev pub is_acknowledged : Beat → Bool
is_acknowledged (answered response) = is_ack response
is_acknowledged _ = false

-- the context ended
abbrev pub is_stopped : Beat → Bool
is_stopped (unsent is_cancelled) = is_cancelled
is_stopped context_done = true
is_stopped _ = false

-- A heartbeat leaves no pending request. The loop goes on just when it was acknowledged; if it was not,
-- and the agent does not stop, a reconnection is asked for.
pub heartbeat_tick_outcomes :
    (id : String) (ch : ℕ) (beat : Beat) (m : Manager)
    → let (goes_on, after) = heartbeat_tick id ch beat m in
      (lookup id after.pending ≡ none)
      × (goes_on ≡ is_acknowledged beat)
      × ((is_acknowledged beat || is_stopped beat) ≡ false → after.reconnect ≡ true)
unfolding heartbeat_tick trigger_reconnect
heartbeat_tick_outcomes id ch (unsent true) m =
    (removed id (register_pending_request id ch m), refl, λ h. cc)
heartbeat_tick_outcomes id ch (unsent false) m =
    (removed id (register_pending_request id ch m), refl, λ h. refl)
heartbeat_tick_outcomes id ch (answered response) m = elim (Bool-cases (is_ack response)) [
  | inl e ↦ rw (e, heartbeat_tick) (removed id (register_pending_request id ch m), refl, λ h. cc)
  | inr e ↦ rw (e, heartbeat_tick) (removed id (register_pending_request id ch m), refl, λ h. refl)
]
heartbeat_tick_outcomes id ch timed_out m =
    (removed id (register_pending_request id ch m), refl, λ h. refl)
heartbeat_tick_outcomes id ch context_done m =
    (removed id (register_pending_request id ch m), refl, λ h. cc)
