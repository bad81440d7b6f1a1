-- ===== src/Connect/Logs/Chunks.antt =====
-- What `runLogStream` of agent/internal/connect.go sends.
use podman_manager.Prelude.{
  suc, String, Bool, true, false, not, ◌&&◌, Option, none, some, List, [], ◌∷◌, ◌++◌, leb,
  if◌then◌else◌, ◌≡◌, refl, sym, ap, ◌∙◌, arith, inl, inr, Bool-cases,
}
use podman_manager.Connect.Logs.{
  LogMessage, chunk, logs_failed, count, Choice, done, take_line, lines_closed, finished, LogState,
  batch, flush, finish, append_line, run_log_stream,
}

-- the lines of the chunks
unfoldable pub lines_of : List LogMessage → List String
lines_of [] = []
lines_of (chunk ls ∷ ms) = ls ++ lines_of ms
lines_of (logs_failed text ∷ ms) = lines_of ms

-- each chunk has lines, and no more than a batch
unfoldable pub are_batches : List LogMessage → Bool
unfolding count
are_batches [] = true
are_batches (chunk ls ∷ ms) = leb 1 (count ls) && leb (count ls) batch && are_batches ms
are_batches (logs_failed text ∷ ms) = are_batches ms

append_assoc : (xs ys zs : List String) → (xs ++ ys) ++ zs ≡ xs ++ (ys ++ zs)
append_assoc [] ys zs = refl
append_assoc (x ∷ xs) ys zs = ap (λ r. x ∷ r) (append_assoc xs ys zs)

pub append_nil : (xs : List String) → xs ++ [] ≡ xs
append_nil [] = refl
append_nil (x ∷ xs) = ap (λ r. x ∷ r) (append_nil xs)

pub lines_of_append :
    (ms : List LogMessage) (m : LogMessage)
    → lines_of (ms ++ (m ∷ [])) ≡ lines_of ms ++ lines_of (m ∷ [])
unfolding lines_of
lines_of_append [] m = refl
lines_of_append (chunk ls ∷ ms) m =
    ap (λ r. ls ++ r) (lines_of_append ms m)
    ∙ sym (append_assoc ls (lines_of ms) (lines_of (m ∷ [])))
lines_of_append (logs_failed text ∷ ms) m = lines_of_append ms m

-- the lines that were sent, those that wait for a full batch, and those in the channel
abbrev pub all_lines : LogState → List String
all_lines s = lines_of s.sent ++ (s.entries ++ s.lines)

abbrev pub state : List String → List String → List LogMessage → LogState
state ls es ms = record { lines = ls; entries = es; sent = ms }

flush_at :
    (ls es : List String) (ms : List LogMessage)
    → all_lines (flush true (state ls es ms)).1 ≡ all_lines (state ls es ms)
unfolding flush lines_of
flush_at ls [] ms = refl
flush_at ls (e ∷ es) ms =
    ap (λ r. r ++ ls) (lines_of_append ms (chunk (e ∷ es)))
    ∙ append_assoc (lines_of ms) ((e ∷ es) ++ []) ls
    ∙ ap (λ r. lines_of ms ++ (r ++ ls)) (append_nil (e ∷ es))

flush_lines : (s : LogState) → all_lines (flush true s).1 ≡ all_lines s
flush_lines s = flush_at s.lines s.entries s.sent

pub append_line_lines :
    (line : String) (rest : List String) (s : LogState)
    → s.lines ≡ line ∷ rest
    → all_lines (append_line true line rest s).1 ≡ all_lines s
unfolding append_line
append_line_lines line rest s h =
    let next = state rest (s.entries ++ (line ∷ [])) s.sent in
    let moved =
      ap (λ r. lines_of s.sent ++ r)
        (append_assoc s.entries (line ∷ []) rest ∙ ap (λ r. s.entries ++ r) (sym h)) in
    elim (Bool-cases (leb batch (count (s.entries ++ (line ∷ []))))) [
      | inl e ↦ rw (e, append_line) (flush_lines next ∙ moved)
      | inr e ↦ rw (e, append_line) moved
    ]

finish_lines :
    (b c : Bool) (error : Option String) (s : LogState)
    → all_lines (finish true b c error s) ≡ all_lines s
unfolding finish lines_of
finish_lines b c none s = flush_lines s
finish_lines b c (some text) s =
    let f = (flush true s).1 in
    let more =
      ap (λ r. r ++ (f.entries ++ f.lines))
        (lines_of_append f.sent (logs_failed text) ∙ append_nil (lines_of f.sent)) in
    elim (Bool-cases (not b && c)) [
      | inl e ↦ rw e (more ∙ flush_lines s)
      | inr e ↦ rw e (flush_lines s)
    ]

-- the stream takes every batch
unfoldable pub all_taken : List Choice → Bool
all_taken [] = true
all_taken (done sends ∷ cs) = sends && all_taken cs
all_taken (take_line sends ∷ cs) = sends && all_taken cs
all_taken (lines_closed sends ∷ cs) = sends && all_taken cs
all_taken (finished sends is_cancelled sends_error error ∷ cs) = sends && all_taken cs

either_lines :
    (goes_on : Bool) (x y : LogState) (ls : List String)
    → all_lines x ≡ ls
    → all_lines y ≡ ls
    → all_lines (if goes_on then x else y) ≡ ls
either_lines true x y ls h k = h
either_lines false x y ls h k = k

run_lines_at :
    (cs : List Choice) (ls es : List String) (ms : List LogMessage)
    → all_taken cs ≡ true
    → all_lines (run_log_stream cs (state ls es ms)) ≡ all_lines (state ls es ms)
unfolding run_log_stream all_taken
run_lines_at [] ls es ms h = refl
run_lines_at (done true ∷ cs) ls es ms h = flush_at ls es ms
run_lines_at (done false ∷ cs) ls es ms h = cc
run_lines_at (finished true b c error ∷ cs) ls es ms h = finish_lines b c error (state ls es ms)
run_lines_at (finished false b c error ∷ cs) ls es ms h = cc
run_lines_at (lines_closed true ∷ cs) [] es ms h =
    let f = (flush true (state [] es ms)).1 in
    run_lines_at cs f.lines f.entries f.sent h ∙ flush_at [] es ms
run_lines_at (lines_closed true ∷ cs) (line ∷ ls) es ms h = run_lines_at cs (line ∷ ls) es ms h
run_lines_at (lines_closed false ∷ cs) ls es ms h = cc
run_lines_at (take_line true ∷ cs) [] es ms h = run_lines_at cs [] es ms h
run_lines_at (take_line true ∷ cs) (line ∷ ls) es ms h =
    let s = state (line ∷ ls) es ms in
    let next = append_line true line ls s in
    let kept = append_line_lines line ls s refl in
    let f = next.1 in
    either_lines next.0 (run_log_stream cs f) f (all_lines s)
      (run_lines_at cs f.lines f.entries f.sent h ∙ kept) kept
run_lines_at (take_line false ∷ cs) ls es ms h = cc

-- While the manager takes every batch, no line is lost, doubled or moved: the lines of the chunks that
-- were sent, then those that wait for a full batch, then those in the channel, are always the same.
pub run_log_stream_lines :
    (cs : List Choice) (s : LogState)
    → all_taken cs ≡ true
    → all_lines (run_log_stream cs s) ≡ all_lines s
run_log_stream_lines cs s h = run_lines_at cs s.lines s.entries s.sent h

-- a state before a batch is full, with batches behind it
abbrev IsSmall : LogState → Type 0
IsSmall s = (leb batch (count s.entries) ≡ false) × (are_batches s.sent ≡ true)

are_batches_append :
    (ms : List LogMessage) (m : LogMessage)
    → are_batches ms ≡ true
    → are_batches (m ∷ []) ≡ true
    → are_batches (ms ++ (m ∷ [])) ≡ true
unfolding are_batches
are_batches_append [] m h k = k
are_batches_append (chunk ls ∷ ms) m h k = ground (arith, are_batches_append ms m)
are_batches_append (logs_failed text ∷ ms) m h k = are_batches_append ms m h k

count_append : (es : List String) (line : String) → count (es ++ (line ∷ [])) ≡ suc (count es)
unfolding count
count_append [] line = refl
count_append (e ∷ es) line = ap suc (count_append es line)

flush_batches :
    (sends : Bool) (ls es : List String) (ms : List LogMessage)
    → leb (count es) batch ≡ true
    → are_batches ms ≡ true
    → IsSmall (flush sends (state ls es ms)).1
unfolding flush count are_batches
flush_batches sends ls [] ms h k = (refl, k)
flush_batches true ls (e ∷ es) ms h k =
    (refl, are_batches_append ms (chunk (e ∷ es)) k (ground (arith)))
flush_batches false ls (e ∷ es) ms h k = (refl, k)

append_line_batches :
    (sends : Bool) (line : String) (rest : List String) (s : LogState)
    → IsSmall s
    → IsSmall (append_line sends line rest s).1
unfolding append_line
append_line_batches sends line rest s (h, k) =
    let next = state rest (s.entries ++ (line ∷ [])) s.sent in
    let more = count_append s.entries line in
    elim (Bool-cases (leb batch (count (s.entries ++ (line ∷ []))))) [
      | inl e ↦
          rw (e, append_line)
            (flush_batches sends rest (s.entries ++ (line ∷ [])) s.sent (ground arith) k)
      | inr e ↦ rw (e, append_line) (e, k)
    ]

finish_batches :
    (sends b c : Bool) (error : Option String) (s : LogState)
    → IsSmall s
    → are_batches (finish sends b c error s).sent ≡ true
unfolding finish are_batches
finish_batches sends b c none s (h, k) =
    (flush_batches sends s.lines s.entries s.sent (ground arith) k).1
finish_batches sends b c (some text) s (h, k) =
    let f = flush_batches sends s.lines s.entries s.sent (ground arith) k in
    elim (Bool-cases (not b && c)) [
      | inl e ↦ rw e (are_batches_append (flush sends s).1.sent (logs_failed text) f.1 refl)
      | inr e ↦ rw e f.1
    ]

either_batches :
    (goes_on : Bool) (x y : LogState)
    → are_batches x.sent ≡ true
    → are_batches y.sent ≡ true
    → are_batches (if goes_on then x else y).sent ≡ true
either_batches true x y h k = h
either_batches false x y h k = k

run_batches_at :
    (cs : List Choice) (ls es : List String) (ms : List LogMessage)
    → IsSmall (state ls es ms)
    → are_batches (run_log_stream cs (state ls es ms)).sent ≡ true
unfolding run_log_stream
run_batches_at [] ls es ms (h, k) = k
run_batches_at (done sends ∷ cs) ls es ms (h, k) = (flush_batches sends ls es ms (ground arith) k).1
run_batches_at (finished sends b c error ∷ cs) ls es ms h =
    finish_batches sends b c error (state ls es ms) h
run_batches_at (lines_closed sends ∷ cs) [] es ms (h, k) =
    let f = (flush sends (state [] es ms)).1 in
    run_batches_at cs f.lines f.entries f.sent (flush_batches sends [] es ms (ground arith) k)
run_batches_at (lines_closed sends ∷ cs) (line ∷ ls) es ms h = run_batches_at cs (line ∷ ls) es ms h
run_batches_at (take_line sends ∷ cs) [] es ms h = run_batches_at cs [] es ms h
run_batches_at (take_line sends ∷ cs) (line ∷ ls) es ms h =
    let next = append_line sends line ls (state (line ∷ ls) es ms) in
    let small = append_line_batches sends line ls (state (line ∷ ls) es ms) h in
    let f = next.1 in
    either_batches next.0 (run_log_stream cs f) f (run_batches_at cs f.lines f.entries f.sent small)
      small.1

-- `runLogStream` before its first round
abbrev pub start : List String → LogState
start ls = state ls [] []

-- Each message with lines that a stream of logs sends has at least one line and at most fifty.
pub run_log_stream_batches :
    (cs : List Choice) (ls : List String) → are_batches (run_log_stream cs (start ls)).sent ≡ true
unfolding count are_batches
run_log_stream_batches cs ls = run_batches_at cs ls [] [] (refl, refl)
