-- ===== src/Connect/Manager/Live.antt =====
-- No stream of agent/internal/connect.go outlives the connection, and what a restart of one does.
use podman_manager.Prelude.{
  ℕ, String, Bool, true, false, some, List, [], ◌∷◌, Map, lookup, put, delete, lookup-put,
  lookup-delete, nat_eq, ◌==◌, ◌||◌, ◌≡◌, refl, sym, ap, ◌∙◌, subst⁻¹, ◌⊎◌, inl, inr, arith, eq_iff,
  eq_refl, Bool-cases, trim_space, Result, ok, err,
}
use podman_manager.Connect.Manager.{
  Manager, StreamError, request_id_required, container_id_required, contexts, cancel_all,
  cancel_all_streams, cancel_at, start_log_stream, stop_log_stream, start_event_stream,
  stop_event_stream, close_connection, fail_pending_requests,
}
use podman_manager.Connect.Logs.{Choice, log_stream}

unfoldable pub is_in : ℕ → List ℕ → Bool
is_in c [] = false
is_in c (d ∷ ds) = nat_eq c d || is_in c ds

abbrev Held : ℕ → Map ℕ → Type 0
Held c streams = (id : String) × (lookup id streams ≡ some c)

-- a context is cancelled, or a map holds it
abbrev pub IsTracked : Manager → ℕ → Type 0
IsTracked m c = (is_in c m.cancelled ≡ true) ⊎ (Held c m.log_streams ⊎ Held c m.event_streams)

is_in-cancel_at :
    (c : ℕ) (id : String) (streams : Map ℕ) (cancelled : List ℕ)
    → is_in c cancelled ≡ true
    → is_in c (cancel_at id streams cancelled) ≡ true
unfolding is_in
is_in-cancel_at c id streams cancelled h = ground (arith)

is_in_cancelled :
    (c : ℕ) (id : String) (streams : Map ℕ) (cancelled : List ℕ)
    → lookup id streams ≡ some c
    → is_in c (cancel_at id streams cancelled) ≡ true
unfolding is_in
is_in_cancelled c id streams cancelled h = ground (arith)

eq_of : (s t : String) → (s == t) ≡ true → s ≡ t
eq_of s t h = ground (arith, eq_iff s t)

-- a change of the entry of `id`, whose context is cancelled, loses no context
Held-or_cancelled :
    (c : ℕ) (id : String) (streams after : Map ℕ) (cancelled : List ℕ)
    → ((j : String) → (id == j) ≡ false → lookup j after ≡ lookup j streams)
    → Held c streams
    → (is_in c (cancel_at id streams cancelled) ≡ true) ⊎ Held c after
Held-or_cancelled c id streams after cancelled same (j, h) = elim (Bool-cases (id == j)) [
  | inl e ↦
      inl (is_in_cancelled c id streams cancelled (ap (λ i. lookup i streams) (eq_of id j e) ∙ h))
  | inr e ↦ inr (j, same j e ∙ h)
]

put_others :
    (id : String) (c : ℕ) (m : Map ℕ) (j : String)
    → (id == j) ≡ false
    → lookup j (put id c m) ≡ lookup j m
put_others id c m j e = lookup-put id j c m ∙ rw e refl

delete_others :
    (id : String) (m : Map ℕ) (j : String) → (id == j) ≡ false → lookup j (delete id m) ≡ lookup j m
delete_others id m j e = lookup-delete id j m ∙ rw e refl

-- a call, with the context that it would make
pub data Call : Type 0 where
  start_logs : String → String → ℕ → Call
  start_events : String → ℕ → Call
  stop_logs stop_events : String → Call
  cancel_streams close : Call

unfoldable pub call : Call → Manager → Manager
unfolding start_log_stream start_event_stream stop_log_stream stop_event_stream cancel_all_streams
    close_connection
call (start_logs id container_id c) m = (start_log_stream id container_id c m).1
call (start_events id c) m = (start_event_stream id c m).1
call (stop_logs id) m = stop_log_stream id m
call (stop_events id) m = stop_event_stream id m
call cancel_streams m = cancel_all_streams m
call close m = close_connection m

unfoldable pub calls : List Call → Manager → Manager
unfolding call
calls [] m = m
calls (k ∷ ks) m = calls ks (call k m)

IsTracked-logs :
    (m : Manager) (id : String) (after : Map ℕ) (c : ℕ)
    → ((j : String) → (id == j) ≡ false → lookup j after ≡ lookup j m.log_streams)
    → IsTracked m c
    → IsTracked
        (record m { log_streams = after; cancelled = cancel_at id m.log_streams m.cancelled })
        c
IsTracked-logs m id after c same (inl h) = inl (is_in-cancel_at c id m.log_streams m.cancelled h)
IsTracked-logs m id after c same (inr (inr h)) = inr (inr h)
IsTracked-logs m id after c same (inr (inl h)) =
    elim (Held-or_cancelled c id m.log_streams after m.cancelled same h) [
      | inl k ↦ inl k
      | inr k ↦ inr (inl k)
    ]

IsTracked-events :
    (m : Manager) (id : String) (after : Map ℕ) (c : ℕ)
    → ((j : String) → (id == j) ≡ false → lookup j after ≡ lookup j m.event_streams)
    → IsTracked m c
    → IsTracked
        (record m { event_streams = after; cancelled = cancel_at id m.event_streams m.cancelled })
        c
IsTracked-events m id after c same (inl h) =
    inl (is_in-cancel_at c id m.event_streams m.cancelled h)
IsTracked-events m id after c same (inr (inl h)) = inr (inl h)
IsTracked-events m id after c same (inr (inr h)) =
    elim (Held-or_cancelled c id m.event_streams after m.cancelled same h) [
      | inl k ↦ inl k
      | inr k ↦ inr (inr k)
    ]

or_left : (a b : Bool) → a ≡ true → (a || b) ≡ true
or_left a b h = rw h refl

or_right : (a b : Bool) → b ≡ true → (a || b) ≡ true
or_right true b h = refl
or_right false b h = h

is_in-cancel_all :
    (c : ℕ) (cs cancelled : List ℕ)
    → (is_in c cs || is_in c cancelled) ≡ true
    → is_in c (cancel_all cs cancelled) ≡ true
unfolding is_in cancel_all
is_in-cancel_all c [] cancelled h = h
is_in-cancel_all c (d ∷ cs) cancelled h = ground (arith, is_in-cancel_all c cs cancelled)

held_in_contexts :
    (c : ℕ) (id : String) (streams : Map ℕ)
    → lookup id streams ≡ some c
    → is_in c (contexts streams) ≡ true
unfolding is_in contexts lookup
held_in_contexts c id [] h = cc
held_in_contexts c id ((j, d) ∷ streams) h = ground (arith, held_in_contexts c id streams)

cancel_all_streams_cancels :
    (m : Manager) (c : ℕ) → IsTracked m c → is_in c (cancel_all_streams m).cancelled ≡ true
unfolding cancel_all_streams
cancel_all_streams_cancels m c t =
    let logs =
      is_in-cancel_all c (contexts m.log_streams)
        (cancel_all (contexts m.event_streams) m.cancelled) in
    let events = is_in-cancel_all c (contexts m.event_streams) m.cancelled in
    elim t [
      | inl h ↦ logs (or_right _ _ (events (or_right _ _ h)))
      | inr (inl (id, h)) ↦ logs (or_left _ _ (held_in_contexts c id m.log_streams h))
      | inr (inr (id, h)) ↦
          logs (or_right _ _ (events (or_left _ _ (held_in_contexts c id m.event_streams h))))
    ]

lookup_just_put : (id : String) (c : ℕ) (m : Map ℕ) → lookup id (put id c m) ≡ some c
lookup_just_put id c m = lookup-put id id c m ∙ rw (eq_refl id) refl

abbrev logs_started : String → ℕ → Manager → Manager
logs_started id c m = record m {
  log_streams = put id c m.log_streams;
  cancelled = cancel_at id m.log_streams m.cancelled;
}

abbrev events_started : String → ℕ → Manager → Manager
events_started id c m = record m {
  event_streams = put id c m.event_streams;
  cancelled = cancel_at id m.event_streams m.cancelled;
}

start_logs_at :
    (id container_id : String) (c : ℕ) (m : Manager)
    → (trim_space id == "") ≡ false
    → (trim_space container_id == "") ≡ false
    → start_log_stream id container_id c m ≡ (ok tt, logs_started id c m)
unfolding start_log_stream
start_logs_at id container_id c m e f = rw (e, f) refl

start_logs_cases :
    (id container_id : String) (c : ℕ) (m : Manager)
    → ((e : StreamError) × (start_log_stream id container_id c m ≡ (err e, m)))
      ⊎ (start_log_stream id container_id c m ≡ (ok tt, logs_started id c m))
unfolding start_log_stream
start_logs_cases id container_id c m = elim (Bool-cases (trim_space id == "")) [
  | inl e ↦ inl (request_id_required, rw e refl)
  | inr e ↦ elim (Bool-cases (trim_space container_id == "")) [
    | inl f ↦ inl (container_id_required, rw (e, f) refl)
    | inr f ↦ inr (rw (e, f) refl)
  ]
]

start_events_cases :
    (id : String) (c : ℕ) (m : Manager)
    → ((e : StreamError) × (start_event_stream id c m ≡ (err e, m)))
      ⊎ (start_event_stream id c m ≡ (ok tt, events_started id c m))
unfolding start_event_stream
start_events_cases id c m = elim (Bool-cases (trim_space id == "")) [
  | inl e ↦ inl (request_id_required, rw e refl)
  | inr e ↦ inr (rw e refl)
]

moved :
    (o p : Result StreamError (Unit {0}) × Manager) (c : ℕ)
    → o ≡ p
    → IsTracked p.1 c
    → IsTracked o.1 c
moved o p c e t = subst⁻¹ (λ o. IsTracked o.1 c) e t

call-IsTracked : (k : Call) (m : Manager) (c : ℕ) → IsTracked m c → IsTracked (call k m) c
unfolding call stop_log_stream stop_event_stream close_connection fail_pending_requests
call-IsTracked (start_logs id container_id d) m c t = elim (start_logs_cases id container_id d m) [
  | inl (e, h) ↦ moved (start_log_stream id container_id d m) (err e, m) c h t
  | inr h ↦
      moved (start_log_stream id container_id d m) (ok tt, logs_started id d m) c h
        (IsTracked-logs m id (put id d m.log_streams) c (put_others id d m.log_streams) t)
]
call-IsTracked (start_events id d) m c t = elim (start_events_cases id d m) [
  | inl (e, h) ↦ moved (start_event_stream id d m) (err e, m) c h t
  | inr h ↦
      moved (start_event_stream id d m) (ok tt, events_started id d m) c h
        (IsTracked-events m id (put id d m.event_streams) c (put_others id d m.event_streams) t)
]
call-IsTracked (stop_logs id) m c t =
    IsTracked-logs m id (delete id m.log_streams) c (delete_others id m.log_streams) t
call-IsTracked (stop_events id) m c t =
    IsTracked-events m id (delete id m.event_streams) c (delete_others id m.event_streams) t
call-IsTracked cancel_streams m c t = inl (cancel_all_streams_cancels m c t)
call-IsTracked close m c t = inl (cancel_all_streams_cancels m c t)

calls-IsTracked : (ks : List Call) (m : Manager) (c : ℕ) → IsTracked m c → IsTracked (calls ks m) c
unfolding calls
calls-IsTracked [] m c t = t
calls-IsTracked (k ∷ ks) m c t = calls-IsTracked ks (call k m) c (call-IsTracked k m c t)

-- A stream of logs that was started is cancelled when all streams are, whatever streams are started and
-- stopped in between.
pub log_stream_ends :
    (m after : Manager) (id container_id : String) (c : ℕ) (ks : List Call)
    → start_log_stream id container_id c m ≡ (ok tt, after)
    → is_in c (cancel_all_streams (calls ks after)).cancelled ≡ true
log_stream_ends m after id container_id c ks h =
    let there =
      elim (start_logs_cases id container_id c m) as (λ _. lookup id after.log_streams ≡ some c) [
        | inl (e, f) ↦ let k = ap (λ o. o.0) (sym h ∙ f) in cc
        | inr f ↦
            ap (λ o. lookup id o.1.log_streams) (sym h ∙ f) ∙ lookup_just_put id c m.log_streams
      ] in
    cancel_all_streams_cancels (calls ks after) c
      (calls-IsTracked ks after c (inr (inl (id, there))))

-- A stream of logs that is started again for its request ID is cancelled when the first one, which the
-- restart cancelled, ends and stops what it takes for itself, whatever the first one has sent.
pub restarted_log_stream_cancelled :
    (m : Manager) (id container_id : String) (first second : ℕ) (cs : List Choice)
    (ls : List String)
    → (trim_space id == "") ≡ false
    → (trim_space container_id == "") ≡ false
    → let started = (start_log_stream id container_id first m).1 in
      let restarted = (start_log_stream id container_id second started).1 in
      (is_in first restarted.cancelled ≡ true)
      × (lookup id restarted.log_streams ≡ some second)
      × (is_in second (log_stream id cs ls restarted).1.cancelled ≡ true)
unfolding stop_log_stream log_stream
restarted_log_stream_cancelled m id container_id first second cs ls e f =
    let started = logs_started id first m in
    let p = start_logs_at id container_id first m e f in
    let q = start_logs_at id container_id second started e f in
    let first_there : lookup id started.log_streams ≡ some first =
      lookup_just_put id first m.log_streams in
    let second_there : lookup id (logs_started id second started).log_streams ≡ some second =
      lookup_just_put id second started.log_streams in
    let after = ap (λ o. o.1) p in
    let restarted =
      ap (λ m. (start_log_stream id container_id second m).1) after ∙ ap (λ o. o.1) q in
    (
      ap (λ m. is_in first m.cancelled) restarted
          ∙ is_in_cancelled first id started.log_streams started.cancelled first_there,
      ap (λ m. lookup id m.log_streams) restarted ∙ second_there,
      ap (λ m. is_in second (stop_log_stream id m).cancelled) restarted
          ∙ is_in_cancelled second id (logs_started id second started).log_streams
              (logs_started id second started).cancelled second_there,
    )
