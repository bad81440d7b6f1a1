-- ===== src/Examples/ConnectExamples.antt =====
-- agent/internal at concrete inputs
use podman_manager.Prelude.{
  String, true, false, ◌≡◌, refl, Option, none, some, List, [], ◌∷◌, ◌++◌, lookup, put, Result, ok,
  err, ◌==◌, pos, trim_space, trim_left, trim_right, trim_before, is_space,
}
use podman_manager.Agent.Messages.{
  Payload, AgentType, request_id_of, command_envelope, volume_remove_request,
}
use podman_manager.Connect.Manager.{Manager, close_connection, start_log_stream, cancel_all_streams}
use podman_manager.Connect.Manager.Waiters.{is_answered, close_connection_answers}
use podman_manager.Connect.Manager.Live.{
  start_logs, stop_events, calls, is_in, log_stream_ends, restarted_log_stream_cancelled,
}
use podman_manager.Connect.Logs.{take_line, done, run_log_stream, Choice, LogState, log_stream}
use podman_manager.Connect.Logs.Chunks.{
  all_lines, all_taken, start, run_log_stream_lines, lines_of, are_batches, run_log_stream_batches,
}
use podman_manager.Connect.Logs.Ends.{takes_all, log_lines_lost}
use podman_manager.Connect.Commands.{Engine, Encoder, handle_stream_command}
use podman_manager.Connect.Commands.Answers.{is_command, IsAnswered, handle_stream_command_answers}
use podman_manager.Connect.Enrolment.{AgentConfig, EnrollRequest, EnrollResponse, ensure_enrolled}
use podman_manager.Connect.Enrolment.Outcomes.{Leaves, ensure_enrolled-Leaves}
use podman_manager.Connect.Quadlet.{named_container, parse_quadlet_container}
use podman_manager.Connect.Quadlet.Sections.{entries_of, set_all, parse_quadlet_container_entries}
use podman_manager.Connect.Loops.{dial_fails, stream_fails, connects, reconnect}
use podman_manager.Connect.Loops.Ends.{all_fail, reconnect_connects}

-- connected, with one request that waits on channel 7
abbrev waiting : Manager
waiting = record {
  conn = some 1;
  stream = some 2;
  pending = ("r1", 7) ∷ [];
  buffers = λ ch. none;
  log_streams = [];
  event_streams = [];
  cancelled = [];
  reconnect = false;
}

r1_waits : lookup "r1" waiting.pending ≡ some 7
unfolding lookup
r1_waits = refl

close_connection_answers_example :
    (is_answered ((close_connection waiting).buffers 7) ≡ true)
    × (is_answered (waiting.buffers 7) ≡ true
        → (close_connection waiting).buffers 7 ≡ waiting.buffers 7)
    × ((close_connection waiting).pending ≡ [])
close_connection_answers_example = close_connection_answers waiting "r1" 7 r1_waits

abbrev with_logs : Manager
with_logs = record waiting { log_streams = ("r2", 11) ∷ [] }

logs_started : start_log_stream "r2" "web" 11 waiting ≡ (ok tt, with_logs)
unfolding start_log_stream lookup put trim_space trim_left trim_right trim_before is_space
logs_started = refl

log_stream_ends_example :
    is_in 11
      (cancel_all_streams
        (calls (start_logs "r2" "db" 12 ∷ stop_events "r2" ∷ []) with_logs)).cancelled
    ≡ true
log_stream_ends_example =
    log_stream_ends waiting with_logs "r2" "web" 11
      (start_logs "r2" "db" 12 ∷ stop_events "r2" ∷ []) logs_started

r2_not_blank : (trim_space "r2" == "") ≡ false
unfolding trim_space trim_left trim_right trim_before is_space
r2_not_blank = refl

web_not_blank : (trim_space "web" == "") ≡ false
unfolding trim_space trim_left trim_right trim_before is_space
web_not_blank = refl

abbrev log : List String
log = "a" ∷ "b" ∷ []

abbrev two_choices : List Choice
two_choices = take_line true ∷ done true ∷ []

restarted_log_stream_cancelled_example :
    let restarted = (start_log_stream "r2" "web" 12 (start_log_stream "r2" "web" 11 waiting).1).1 in
    (is_in 11 restarted.cancelled ≡ true)
    × (lookup "r2" restarted.log_streams ≡ some 12)
    × (is_in 12 (log_stream "r2" two_choices log restarted).1.cancelled ≡ true)
restarted_log_stream_cancelled_example =
    restarted_log_stream_cancelled waiting "r2" "web" 11 12 two_choices log r2_not_blank
      web_not_blank

two_taken : all_taken two_choices ≡ true
unfolding all_taken
two_taken = refl

run_log_stream_lines_example :
    all_lines (run_log_stream two_choices (start log)) ≡ all_lines (start log)
run_log_stream_lines_example = run_log_stream_lines two_choices (start log) two_taken

-- the run over three lines of which one has been taken at its end
abbrev cut_short : LogState
cut_short = run_log_stream (takes_all ("a" ∷ [])) (start ("a" ∷ "b" ∷ "c" ∷ []))

log_lines_lost_example : (lines_of cut_short.sent ≡ "a" ∷ []) × (cut_short.lines ≡ "b" ∷ "c" ∷ [])
log_lines_lost_example = log_lines_lost ("a" ∷ []) ("b" ∷ "c" ∷ [])

run_log_stream_batches_example : are_batches (run_log_stream two_choices (start log)).sent ≡ true
run_log_stream_batches_example = run_log_stream_batches two_choices log

-- Podman with no containers, where every action fails
abbrev failing : Engine
failing = record {
  list_containers = λ all. ok [];
  list_volumes = err "no socket";
  create_volume = λ v. some "no socket";
  remove_volume = λ name force. some "no socket";
  prune_volumes = (none, some "no socket");
  list_networks = err "no socket";
  create_network = λ n. some "no socket";
  remove_network = λ name. some "no socket";
  prune_networks = (none, some "no socket");
  connect_network = λ n c. some "no socket";
  disconnect_network = λ n c force. some "no socket";
  parse_bool = λ s. s == "true";
  atoi = λ s. pos 0;
  parse_volume = λ s. err "no JSON";
  parse_network = λ s. err "no JSON";
}

abbrev encoder : Encoder
encoder = record {
  containers = λ cs. [];
  volumes = λ vs. [];
  volume_action = λ name r. [];
  volumes_pruned = λ names r. [];
  networks = λ ns. [];
  network_action = λ n c r. [];
  networks_pruned = λ names r. [];
  logs_failure = λ c e. [];
  events_failure = λ e. [];
}

abbrev no_json : Payload → String
no_json rest = "{}"

abbrev request : AgentType
request = volume_remove_request "r3" "data" true

handle_stream_command_answers_example :
    let handled =
      handle_stream_command failing encoder 13 (command_envelope no_json request) waiting in
    (is_command request ≡ true → IsAnswered waiting (request_id_of request) handled)
    × (is_command request ≡ false → handled ≡ (false, [], waiting))
handle_stream_command_answers_example =
    handle_stream_command_answers no_json failing encoder 13 waiting request

abbrev new_config : AgentConfig
new_config = record { id = ""; credential = ""; token = "t1" }

abbrev accepts : EnrollRequest → Result String (Option EnrollResponse)
accepts r = ok (some (record { success = true; agent_id = "a1"; credential = "c1" }))

ensure_enrolled-Leaves_example :
    Leaves new_config (ensure_enrolled (ok tt) (ok "nas") accepts "1.0" new_config)
ensure_enrolled-Leaves_example = ensure_enrolled-Leaves (ok tt) (ok "nas") accepts "1.0" new_config

abbrev file : List String
file = "[Unit]" ∷ "Image=no" ∷ "[Container]" ∷ "Image = docker.io/web " ∷ "ContainerName=" ∷ []

parse_quadlet_container_entries_example :
    let q = set_all (λ c. c) (entries_of false file) (named_container "web" "/q/web.container") in
    (parse_quadlet_container (λ c. c) (λ path. ok file) (λ path. "web") "/q/web.container" ≡ ok q)
    × ((q.container_name == "") ≡ false)
parse_quadlet_container_entries_example =
    parse_quadlet_container_entries (λ c. c) (λ path. ok file) (λ path. "web") "/q/web.container"
      file refl refl

failures_fail : all_fail (dial_fails ∷ stream_fails 3 ∷ []) ≡ true
unfolding all_fail
failures_fail = refl

reconnect_connects_example :
    let last = reconnect ((dial_fails ∷ stream_fails 3 ∷ []) ++ (connects 4 5 ∷ [])) waiting in
    (last.conn ≡ some 4) × (last.stream ≡ some 5) × (last.pending ≡ [])
reconnect_connects_example =
    reconnect_connects (dial_fails ∷ stream_fails 3 ∷ []) [] 4 5 waiting failures_fail
