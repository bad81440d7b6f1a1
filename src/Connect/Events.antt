-- ===== src/Connect/Events.antt =====
-- `podmanEventFromJSON` of agent/internal/connect.go, on the decoded payload, and `runEventStream`.
use Prim.Native.String.{◌++◌ as join}
use podman_manager.Prelude.{
  ℕ, suc, String, Bool, true, false, not, ◌&&◌, ◌||◌, none, some, Map, lookup, ◌==◌, nat_eq, ℤ, pos,
  negsuc, if◌then◌else◌, not_positive, Option, List, [], ◌∷◌,
}
use podman_manager.Connect.Manager.{Manager, stop_event_stream}

-- what JSON decodes to
pub record EventPayload : Type 0 where
  pub type : String
  pub action : String
  pub status : String
  pub id : String
  pub time : ℤ
  pub time_nano : ℤ
  pub actor_id : String
  pub attributes : Map String

-- `time.Unix(sec, 0)`, `time.Unix(0, nsec)`, or the time of the call
pub data Timestamp : Type 0 where
  at_second at_nanosecond : ℤ → Timestamp
  at_now : Timestamp

pub record PodmanEvent : Type 0 where
  pub event_type : String
  pub actor_id : String
  pub actor_name : String
  pub timestamp : Timestamp
  pub attributes : Map String

-- `m[k]`, with the empty text for a key that is missing
abbrev pub attribute : String → Map String → String
attribute k m = elim (lookup k m) [ none ↦ "" | some v ↦ v ]

abbrev pub is_zero : ℤ → Bool
is_zero (pos ℕ.zero) = true
is_zero (pos (suc n)) = false
is_zero (negsuc n) = false

-- the second of Go's zero time
abbrev pub is_zero_second : ℤ → Bool
is_zero_second (pos n) = false
is_zero_second (negsuc n) = nat_eq n 62_135_596_799

unfoldable pub event_type_of : EventPayload → String
event_type_of p =
    let word = if p.action == "" then p.status else p.action in
    if not (p.type == "") && not (word == "")
    then join p.type (join ":" word)
    else (if not (p.type == "") then p.type else word)

-- A positive `timeNano` is after 1970, and so it is not the zero time.
unfoldable pub timestamp_of : EventPayload → Timestamp
timestamp_of p =
    if not (not_positive p.time_nano)
    then at_nanosecond p.time_nano
    else (if is_zero_second p.time || (is_zero p.time && is_zero p.time_nano)
        then at_now
        else at_second p.time)

unfoldable pub podman_event : EventPayload → PodmanEvent
unfolding event_type_of timestamp_of lookup
podman_event p = record {
  event_type = event_type_of p;
  actor_id = if p.actor_id == "" then p.id else p.actor_id;
  actor_name =
      (if attribute "name" p.attributes == ""
        then attribute "containerName" p.attributes
        else attribute "name" p.attributes);
  timestamp = timestamp_of p;
  attributes = p.attributes;
}

pub data EventMessage : Type 0 where
  event_data : PodmanEvent → EventMessage
  events_failed : String → EventMessage

-- What one round of `select` in `runEventStream` takes: the end of the context, the end of the channel
-- of events, an event (nothing, if it cannot be decoded) and whether the stream takes it, or what
-- `Events` returned, whether the context has ended and whether the stream takes the error.
pub data EventChoice : Type 0 where
  context_done events_closed : EventChoice
  raw_event : Option EventPayload → Bool → EventChoice
  events_ended : Option String → Bool → Bool → EventChoice

-- what the stream takes of the loop of `runEventStream`
unfoldable pub run_event_stream : List EventChoice → List EventMessage
unfolding podman_event
run_event_stream [] = []
run_event_stream (context_done ∷ cs) = []
run_event_stream (events_closed ∷ cs) = run_event_stream cs
run_event_stream (raw_event none sends ∷ cs) = run_event_stream cs
run_event_stream (raw_event (some p) sends ∷ cs) =
    let rest = run_event_stream cs in if sends then event_data (podman_event p) ∷ rest else []
run_event_stream (events_ended none is_cancelled sends ∷ cs) = []
run_event_stream (events_ended (some text) is_cancelled sends ∷ cs) =
    if not is_cancelled && sends then events_failed text ∷ [] else []

-- `runEventStream` with its deferred `StopEventStream`
unfoldable pub event_stream : String → List EventChoice → Manager → List EventMessage × Manager
unfolding run_event_stream stop_event_stream
event_stream id cs m = (run_event_stream cs, stop_event_stream id m)
