-- ===== src/Connect/Logs.antt =====
-- `runLogStream` and `runEventStream` of agent/internal/connect.go. What the loop over `select` sees, in
-- the order in which `select` takes it, is a list; so is what the goroutine has written to the channel
-- of lines.
pub mod Chunks
pub mod Ends
use podman_manager.Prelude.{
  ℕ, suc, String, Bool, true, false, not, ◌&&◌, Option, none, some, List, [], ◌∷◌, ◌++◌, nat_eq,
  leb, if◌then◌else◌,
}
use podman_manager.Connect.Manager.{Manager, stop_log_stream}

pub data LogMessage : Type 0 where
  chunk : List String → LogMessage
  logs_failed : String → LogMessage

-- `len(entries)`
unfoldable pub count : List String → ℕ
count [] = 0
count (x ∷ xs) = suc (count xs)

-- What one round of `select` takes: the end of the context, a line, the end of the channel of lines, or
-- what `StreamContainerLogs` returned. Each has whether the stream takes the batch, if one is sent then,
-- and the last also whether the context has ended and whether the stream takes the error.
pub data Choice : Type 0 where
  done take_line lines_closed : Bool → Choice
  finished : Bool → Bool → Bool → Option String → Choice

-- the lines that lie in the channel, `entries`, and what the stream took
pub record LogState : Type 0 where
  pub lines : List String
  pub entries : List String
  pub sent : List LogMessage

-- the batch that `entries` has room for
abbrev pub batch : ℕ
batch = 50

-- `flush`, and whether it succeeds; `sends` is whether the stream takes the message
unfoldable pub flush : Bool → LogState → Bool × LogState
flush sends s = elim s.entries [
  | [] ↦ (true, s)
  | (x ∷ xs) ↦ (
    sends,
    record s { entries = []; sent = if sends then s.sent ++ (chunk s.entries ∷ []) else s.sent },
  )
]

-- the end of the stream: an error is sent unless the context has ended
unfoldable pub finish : Bool → Bool → Bool → Option String → LogState → LogState
unfolding flush
finish sends is_cancelled sends_error error s =
    let flushed = (flush sends s).1 in
    elim error [
      | none ↦ flushed
      | some text ↦
          if not is_cancelled && sends_error
          then record flushed { sent = flushed.sent ++ (logs_failed text ∷ []) }
          else flushed
    ]

-- a line that was taken
unfoldable pub append_line : Bool → String → List String → LogState → Bool × LogState
unfolding flush count
append_line sends line rest s =
    let s = record s { lines = rest; entries = s.entries ++ (line ∷ []) } in
    if leb batch (count s.entries) then flush sends s else (true, s)

-- The loop. There is no line to take from an empty channel, and a channel ends when it is empty: other
-- choices are none that `select` has, and are passed over. A full batch that the stream does not take
-- ends the loop.
unfoldable pub run_log_stream : List Choice → LogState → LogState
unfolding flush finish append_line
run_log_stream [] s = s
run_log_stream (done sends ∷ cs) s = (flush sends s).1
run_log_stream (finished sends is_cancelled sends_error error ∷ cs) s =
    finish sends is_cancelled sends_error error s
run_log_stream (lines_closed sends ∷ cs) s =
    let flushed = run_log_stream cs (flush sends s).1 in
    let same = run_log_stream cs s in elim s.lines [ [] ↦ flushed | (line ∷ rest) ↦ same ]
run_log_stream (take_line sends ∷ cs) s =
    let same = run_log_stream cs s in
    elim s.lines [
      | [] ↦ same
      | (line ∷ rest) ↦
          let (goes_on, next) = append_line sends line rest s in
          let result = run_log_stream cs next in if goes_on then result else next
    ]

-- `runLogStream` with its deferred `StopLogStream`: what the manager is sent, and the agent's streams
-- after it
unfoldable pub log_stream : String → List Choice → List String → Manager → LogState × Manager
unfolding run_log_stream stop_log_stream
log_stream id cs ls m =
    (run_log_stream cs (record { lines = ls; entries = []; sent = [] }), stop_log_stream id m)
