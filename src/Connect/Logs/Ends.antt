-- ===== src/Connect/Logs/Ends.antt =====
-- How `runLogStream` of agent/internal/connect.go ends while lines lie in its channel.
use podman_manager.Prelude.{
  String, true, false, none, List, [], ◌∷◌, ◌++◌, leb, if◌then◌else◌, ◌≡◌, refl, sym, ap, ◌∙◌, inl,
  inr, Bool-cases,
}
use podman_manager.Connect.Logs.{
  LogMessage, chunk, count, Choice, take_line, finished, batch, flush, finish, append_line,
  run_log_stream,
}
use podman_manager.Connect.Logs.Chunks.{
  lines_of, lines_of_append, append_nil, append_line_lines, state, start,
}

-- the choices that take a line for each of a list, and then the end without an error
unfoldable pub takes_all : List String → List Choice
takes_all [] = finished true false true none ∷ []
takes_all (line ∷ ls) = take_line true ∷ takes_all ls

-- the messages that were sent, and the lines that wait, once a line has been taken
abbrev sent_by : String → List String → List LogMessage → List LogMessage
sent_by line es ms =
    if leb batch (count (es ++ (line ∷ []))) then ms ++ (chunk (es ++ (line ∷ [])) ∷ []) else ms

abbrev entries_by : String → List String → List String
entries_by line es = if leb batch (count (es ++ (line ∷ []))) then [] else es ++ (line ∷ [])

append_line_at :
    (line : String) (ls rest es : List String) (ms : List LogMessage)
    → append_line true line rest (state ls es ms)
      ≡ (true, state rest (entries_by line es) (sent_by line es ms))
unfolding append_line flush count
append_line_at line ls rest [] ms = refl
append_line_at line ls rest (e ∷ es) ms =
    elim (Bool-cases (leb batch (count ((e ∷ es) ++ (line ∷ []))))) [
      | inl h ↦ rw h refl
      | inr h ↦ rw h refl
    ]

finish_at :
    (ys es : List String) (ms : List LogMessage)
    → let r = finish true false true none (state ys es ms) in
      (lines_of r.sent ≡ lines_of ms ++ (es ++ [])) × (r.lines ≡ ys)
unfolding finish flush lines_of
finish_at ys [] ms = (sym (append_nil (lines_of ms)), refl)
finish_at ys (e ∷ es) ms = (lines_of_append ms (chunk (e ∷ es)), refl)

takes_all_at :
    (ls ys es : List String) (ms : List LogMessage)
    → let r = run_log_stream (takes_all ls) (state (ls ++ ys) es ms) in
      (lines_of r.sent ≡ lines_of ms ++ (es ++ ls)) × (r.lines ≡ ys)
unfolding run_log_stream takes_all
takes_all_at [] ys es ms = finish_at ys es ms
takes_all_at (line ∷ ls) ys es ms =
    let (sent, left) = takes_all_at ls ys (entries_by line es) (sent_by line es ms) in
    let kept = append_line_lines line ls (state (line ∷ ls) es ms) refl in
    let same = append_line_at line (line ∷ ls) ls es ms in
    rw (append_line_at line (line ∷ (ls ++ ys)) (ls ++ ys) es ms)
      (sent ∙ ap (λ p. lines_of p.1.sent ++ (p.1.entries ++ p.1.lines)) (sym same) ∙ kept, left)

-- The goroutine reports the end before it closes the channel, and `select` may take the end while lines
-- lie in the channel. However many lines have been taken by then, the manager gets just those, in their
-- order, and the others stay in the channel and are lost, although it takes what is sent. If none lie
-- there, it gets the whole log.
pub log_lines_lost :
    (taken lost : List String)
    → let r = run_log_stream (takes_all taken) (start (taken ++ lost)) in
      (lines_of r.sent ≡ taken) × (r.lines ≡ lost)
unfolding lines_of
log_lines_lost taken lost = takes_all_at taken lost [] []
