-- ===== src/Connect/Manager.antt =====
-- The state of `Manager` of agent/internal/connect.go, and its small operations, each under one lock.
-- A channel that a request waits on has room for one answer: `buffers` has what lies in it, and `none`
-- stands for nil there. A stream is the number of its context, and `cancelled` has the contexts that
-- were cancelled.
pub mod Waiters
pub mod Live
use podman_manager.Prelude.{
  ℕ, String, Bool, true, false, Option, none, some, List, [], ◌∷◌, Map, lookup, put, delete, nat_eq,
  ◌==◌, ◌||◌, if◌then◌else◌, trim_space, Result, ok, err,
}
use podman_manager.Agent.Messages.{ManagerMessage}

pub record Manager : Type 0 where
  pub conn : Option ℕ
  pub stream : Option ℕ
  pub pending : Map ℕ
  pub buffers : ℕ → Option (Option ManagerMessage)
  pub log_streams : Map ℕ
  pub event_streams : Map ℕ
  pub cancelled : List ℕ
  pub reconnect : Bool

unfoldable pub new_manager : Manager
new_manager = record {
  conn = none;
  stream = none;
  pending = [];
  buffers = λ ch. none;
  log_streams = [];
  event_streams = [];
  cancelled = [];
  reconnect = false;
}

-- `reconnectCh` has room for one
unfoldable pub trigger_reconnect : Manager → Manager
trigger_reconnect m = record m { reconnect = true }

unfoldable pub register_pending_request : String → ℕ → Manager → Manager
unfolding put
register_pending_request id ch m = record m { pending = put id ch m.pending }

unfoldable pub remove_pending_request : String → Manager → Manager
unfolding delete
remove_pending_request id m = record m { pending = delete id m.pending }

-- `select { case ch <- v: default: }`
unfoldable pub offer_to :
    ℕ
    → Option ManagerMessage
    → (ℕ → Option (Option ManagerMessage))
    → ℕ
    → Option (Option ManagerMessage)
offer_to ch v buffers c =
    if nat_eq c ch then elim (buffers c) [ none ↦ some v | some w ↦ some w ] else buffers c

-- nil for each channel of the map
unfoldable pub offer_nil :
    Map ℕ → (ℕ → Option (Option ManagerMessage)) → ℕ → Option (Option ManagerMessage)
unfolding offer_to
offer_nil [] buffers = buffers
offer_nil ((id, ch) ∷ pending) buffers = offer_nil pending (offer_to ch none buffers)

unfoldable pub fail_pending_requests : Manager → Manager
unfolding offer_nil
fail_pending_requests m = record m { pending = []; buffers = offer_nil m.pending m.buffers }

-- the end of the loop of `receiveLoop`, for a message that no stream command handles: `managerRequestID`
-- gave `id`
unfoldable pub deliver : String → ManagerMessage → Manager → Manager
unfolding lookup offer_to
deliver id msg m = if id == "" then m else elim (lookup id m.pending) [
  | none ↦ m
  | some ch ↦ record m { buffers = offer_to ch (some msg) m.buffers }
]

-- the contexts that a map of streams holds
unfoldable pub contexts : Map ℕ → List ℕ
contexts [] = []
contexts ((id, c) ∷ streams) = c ∷ contexts streams

unfoldable pub cancel_all : List ℕ → List ℕ → List ℕ
cancel_all [] cancelled = cancelled
cancel_all (c ∷ cs) cancelled = c ∷ cancel_all cs cancelled

unfoldable pub cancel_all_streams : Manager → Manager
unfolding contexts cancel_all
cancel_all_streams m = record m {
  log_streams = [];
  event_streams = [];
  cancelled =
      cancel_all (contexts m.log_streams) (cancel_all (contexts m.event_streams) m.cancelled);
}

-- `closeConnection`, where a failure to close is only logged
unfoldable pub close_connection : Manager → Manager
unfolding cancel_all_streams fail_pending_requests
close_connection m =
    fail_pending_requests (record (cancel_all_streams m) { stream = none; conn = none })

abbrev pub is_connected : Manager → Bool
is_connected m = elim m.conn [
  | none ↦ false
  | some c ↦ elim m.stream [ none ↦ false | some s ↦ true ]
]

pub data StreamError : Type 0 where
  request_id_required container_id_required : StreamError

-- the context that a request has now, cancelled
abbrev pub cancel_at : String → Map ℕ → List ℕ → List ℕ
cancel_at id streams cancelled = elim (lookup id streams) [
  | none ↦ cancelled
  | some c ↦ c ∷ cancelled
]

-- `StartLogStream`, which then runs `runLogStream` with the new context `c`
unfoldable pub start_log_stream :
    String → String → ℕ → Manager → Result StreamError (Unit {0}) × Manager
unfolding lookup put trim_space
start_log_stream id container_id c m =
    if trim_space id == ""
    then (err request_id_required, m)
    else (if trim_space container_id == "" then (err container_id_required, m) else (
      ok tt,
      record m {
        log_streams = put id c m.log_streams;
        cancelled = cancel_at id m.log_streams m.cancelled;
      },
    ))

-- `StopLogStream`, which `runLogStream` also defers
unfoldable pub stop_log_stream : String → Manager → Manager
unfolding lookup delete
stop_log_stream id m = record m {
  log_streams = delete id m.log_streams;
  cancelled = cancel_at id m.log_streams m.cancelled;
}

unfoldable pub start_event_stream : String → ℕ → Manager → Result StreamError (Unit {0}) × Manager
unfolding lookup put trim_space
start_event_stream id c m = if trim_space id == "" then (err request_id_required, m) else (
  ok tt,
  record m {
    event_streams = put id c m.event_streams;
    cancelled = cancel_at id m.event_streams m.cancelled;
  },
)

unfoldable pub stop_event_stream : String → Manager → Manager
unfolding lookup delete
stop_event_stream id m = record m {
  event_streams = delete id m.event_streams;
  cancelled = cancel_at id m.event_streams m.cancelled;
}
