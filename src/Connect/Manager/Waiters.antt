-- ===== src/Connect/Manager/Waiters.antt =====
-- No request of agent/internal/connect.go waits on when the connection is closed.
use podman_manager.Prelude.{
  ℕ, String, Bool, true, false, Option, none, some, [], ◌∷◌, Map, lookup, ◌==◌, ◌≡◌, refl, sym, ap,
  ◌∙◌, arith, inl, inr, Bool-cases,
}
use podman_manager.Agent.Messages.{ManagerMessage}
use podman_manager.Connect.Manager.{
  Manager, offer_to, offer_nil, fail_pending_requests, cancel_all_streams, close_connection,
}

-- something lies in a channel
abbrev pub is_answered : Option (Option ManagerMessage) → Bool
is_answered none = false
is_answered (some v) = true

offer_to_keeps :
    (ch : ℕ) (v : Option ManagerMessage) (buffers : ℕ → Option (Option ManagerMessage)) (c : ℕ)
    → is_answered (buffers c) ≡ true
    → offer_to ch v buffers c ≡ buffers c
unfolding offer_to
offer_to_keeps ch v buffers c h = ground (arith)

offer_to_answers :
    (ch : ℕ) (v : Option ManagerMessage) (buffers : ℕ → Option (Option ManagerMessage))
    → is_answered (offer_to ch v buffers ch) ≡ true
unfolding offer_to
offer_to_answers ch v buffers = ground (arith)

offer_to-is_answered :
    (ch : ℕ) (v : Option ManagerMessage) (buffers : ℕ → Option (Option ManagerMessage)) (c : ℕ)
    → is_answered (buffers c) ≡ true
    → is_answered (offer_to ch v buffers c) ≡ true
unfolding offer_to
offer_to-is_answered ch v buffers c h = ground (arith)

offer_nil_keeps :
    (pending : Map ℕ) (buffers : ℕ → Option (Option ManagerMessage)) (c : ℕ)
    → is_answered (buffers c) ≡ true
    → offer_nil pending buffers c ≡ buffers c
unfolding offer_nil
offer_nil_keeps [] buffers c h = refl
offer_nil_keeps ((id, ch) ∷ pending) buffers c h =
    offer_nil_keeps pending (offer_to ch none buffers) c (offer_to-is_answered ch none buffers c h)
    ∙ offer_to_keeps ch none buffers c h

some_injective : {a b : ℕ} → some a ≡ some b → a ≡ b
some_injective h = cc

offer_nil_answers :
    (id : String) (ch : ℕ) (pending : Map ℕ) (buffers : ℕ → Option (Option ManagerMessage))
    → lookup id pending ≡ some ch
    → is_answered (offer_nil pending buffers ch) ≡ true
unfolding offer_nil lookup
offer_nil_answers id ch [] buffers h = cc
offer_nil_answers id ch ((j, c) ∷ pending) buffers h = elim (Bool-cases (j == id)) [
  | inl e ↦
      let same = some_injective (rw e at h) in
      let there =
        ap (λ x. is_answered (offer_to c none buffers x)) (sym same)
        ∙ offer_to_answers c none buffers in
      ap is_answered (offer_nil_keeps pending (offer_to c none buffers) ch there) ∙ there
  | inr e ↦ offer_nil_answers id ch pending (offer_to c none buffers) (rw e at h)
]

-- When the connection is closed, something lies in the channel of every pending request, so that none
-- waits on; an answer that lay there is still there; and no request is pending any more.
pub close_connection_answers :
    (m : Manager) (id : String) (ch : ℕ)
    → lookup id m.pending ≡ some ch
    → (is_answered ((close_connection m).buffers ch) ≡ true)
      × (is_answered (m.buffers ch) ≡ true → (close_connection m).buffers ch ≡ m.buffers ch)
      × ((close_connection m).pending ≡ [])
unfolding close_connection cancel_all_streams fail_pending_requests
close_connection_answers m id ch h =
    (offer_nil_answers id ch m.pending m.buffers h, offer_nil_keeps m.pending m.buffers ch, refl)
