-- ===== src/Enroll/Runs.antt =====
-- Any run of the store's operations, in whatever order requests interleave: each method holds the
-- store's lock, so that a run is a sequence of whole operations.
use podman_manager.Prelude.{
  ℕ, String, ◌≡◌, refl, Bool, true, false, Option, none, some, List, [], ◌∷◌, ◌==◌, ok, err, ltb,
  eq_refl, inl, inr, Option-cases, Bool-cases, arith, lookup, put, lookup-put, lookup-delete, ◌⊎◌,
  ap, ◌>>=◌, ◌≤◌,
}
use podman_manager.Enroll.{
  Store, EnrollmentToken, AgentCredential, SaveOutcome, Error, token_not_found, token_used,
  token_expired, create_token, consume_token, validate_token, save_credentials, register_credential,
  revoke_credential, drop_expired, cleanup_expired,
}

pub data Operation : Type 0 where
  create : Option String → ℕ → Operation
  consume : String → String → ℕ → Operation
  register : Option AgentCredential → SaveOutcome → List String → Operation
  revoke : String → SaveOutcome → List String → Operation
  cleanup : ℕ → List String → Operation

unfoldable pub step : Store → Operation → Store
step s (create random now) = (create_token random now s).0
step s (consume token agent_id now) = (consume_token token agent_id now s).0
step s (register cred out order) = (register_credential cred out order s).0
step s (revoke agent_id out order) = (revoke_credential agent_id out order s).0
step s (cleanup now order) = cleanup_expired now order s

unfoldable pub run : Store → List Operation → Store
run s [] = s
run s (o ∷ os) = run (step s o) os

-- the run draws no token that is equal to this one
abbrev pub draws : String → Operation → Bool
draws token (create (some drawn) now) = drawn == token
draws token _ = false

abbrev pub IsFresh : String → List Operation → Type 0
IsFresh token [] = Unit
IsFresh token (o ∷ os) = (draws token o ≡ false) × IsFresh token os

-- A token that is used or gone can no longer be consumed.
abbrev spent : Option EnrollmentToken → Bool
spent none = true
spent (some t) = t.used

tokens-save_credentials :
    (out : SaveOutcome) (order : List String) (s : Store)
    → (save_credentials out order s).0.tokens ≡ s.tokens
unfolding save_credentials
tokens-save_credentials out order s = ground arith

-- A token that `consume_token` takes, and what it leaves.
abbrev pub take_token : String → String → EnrollmentToken → Store → Store
take_token token agent_id t s = record s {
  tokens = put token (record t { used = true; agent_id = agent_id }) s.tokens;
}

pub consume_token_cases :
    (token agent_id : String) (now : ℕ) (s : Store)
    → ((e : Error) × (consume_token token agent_id now s ≡ (s, err e))
        × (validate_token token now s ≡ err e))
      ⊎ ((t : EnrollmentToken) × (lookup token s.tokens ≡ some t)
          × (t.used ≡ false)
          × (now ≤ t.expires_at)
          × (consume_token token agent_id now s ≡ (take_token token agent_id t s, ok tt))
          × (validate_token token now s ≡ ok t))
unfolding consume_token validate_token
consume_token_cases token agent_id now s = elim (Option-cases (lookup token s.tokens)) [
  | inl e ↦ inl (token_not_found, ground arith, ground arith)
  | inr (t, e) ↦ elim (Bool-cases t.used) [
    | inl u ↦ inl (token_used, ground arith, ground arith)
    | inr u ↦ elim (Bool-cases (ltb t.expires_at now)) [
      | inl x ↦ inl (token_expired, ground arith, ground arith)
      | inr x ↦ inr (t, e, u, ground arith, ground arith, ground arith)
    ]
  ]
]

module _ (token : String) where
  drop_expired-spent :
      (now : ℕ) (ks : List String) (m : List (String × EnrollmentToken))
      → spent (lookup token m) ≡ true
      → spent (lookup token (drop_expired now ks m)) ≡ true
  unfolding drop_expired
  drop_expired-spent now [] m h = h
  drop_expired-spent now (k ∷ ks) m h =
      drop_expired-spent now ks _ (ground (arith, lookup-delete k token m))

  create_token-spent :
      (random : Option String) (now : ℕ) (s : Store)
      → draws token (create random now) ≡ false
      → spent (lookup token s.tokens) ≡ true
      → spent (lookup token (create_token random now s).0.tokens) ≡ true
  unfolding create_token
  create_token-spent none now s f h = h
  create_token-spent (some drawn) now s f h = rw (lookup-put, f) h

  consume_token-keeps-spent :
      (drawn agent_id : String) (now : ℕ) (s : Store)
      → spent (lookup token s.tokens) ≡ true
      → spent (lookup token (consume_token drawn agent_id now s).0.tokens) ≡ true
  consume_token-keeps-spent drawn agent_id now s h =
      elim (consume_token_cases drawn agent_id now s) [
        | inl (e, left, _) ↦ rw left h
        | inr (t, _, _, _, left, _) ↦ rw left (rw lookup-put (ground arith))
      ]

  register_credential-spent :
      (cred : Option AgentCredential) (out : SaveOutcome) (order : List String) (s : Store)
      → (register_credential cred out order s).0.tokens ≡ s.tokens
  unfolding register_credential
  register_credential-spent none out order s = refl
  register_credential-spent (some cred) out order s = ground arith

  revoke_credential-spent :
      (agent_id : String) (out : SaveOutcome) (order : List String) (s : Store)
      → (revoke_credential agent_id out order s).0.tokens ≡ s.tokens
  unfolding revoke_credential
  revoke_credential-spent agent_id out order s = ground arith

  step-spent :
      (s : Store) (o : Operation)
      → draws token o ≡ false
      → spent (lookup token s.tokens) ≡ true
      → spent (lookup token (step s o).tokens) ≡ true
  unfolding step
  step-spent s (create random now) f h = create_token-spent random now s f h
  step-spent s (consume drawn agent_id now) f h = consume_token-keeps-spent drawn agent_id now s h
  step-spent s (register cred out order) f h = rw register_credential-spent h
  step-spent s (revoke agent_id out order) f h = rw revoke_credential-spent h
  step-spent s (cleanup now order) f h =
      unfold cleanup_expired in drop_expired-spent now order s.tokens h

  run-spent :
      (s : Store) (os : List Operation)
      → IsFresh token os
      → spent (lookup token s.tokens) ≡ true
      → spent (lookup token (run s os).tokens) ≡ true
  unfolding run
  run-spent s [] f h = h
  run-spent s (o ∷ os) f h = run-spent (step s o) os f.1 (step-spent s o f.0 h)

  consume_token-spent :
      (agent_id : String) (now : ℕ) (s : Store)
      → spent (lookup token s.tokens) ≡ true
      → (e : Error) × (consume_token token agent_id now s ≡ (s, err e))
  consume_token-spent agent_id now s h = elim (consume_token_cases token agent_id now s) [
    | inl (e, left, _) ↦ (e, left)
    | inr (t, found, unused, _, _, _) ↦ absurd (cc (ap spent found))
  ]

  -- A successful consumption marks the token.
  spent-consume_token :
      (agent_id : String) (now : ℕ) (s : Store)
      → (consume_token token agent_id now s).1 ≡ ok tt
      → spent (lookup token (consume_token token agent_id now s).0.tokens) ≡ true
  spent-consume_token agent_id now s h = elim (consume_token_cases token agent_id now s) [
    | inl (e, left, _) ↦ absurd (cc)
    | inr (t, _, _, _, left, _) ↦ rw left (rw (lookup-put, eq_refl) refl)
  ]

  -- A token enrols one agent at most: once it was consumed, then after any run of the store's
  -- operations in which the random source does not draw it again, consuming it is an error that
  -- changes nothing.
  pub consume_token_once :
      (s : Store) (agent_id : String) (now : ℕ) (os : List Operation) (other : String) (later : ℕ)
      → (consume_token token agent_id now s).1 ≡ ok tt
      → IsFresh token os
      → let s' = run (consume_token token agent_id now s).0 os in
        (e : Error) × (consume_token token other later s' ≡ (s', err e))
  consume_token_once s agent_id now os other later taken fresh =
      consume_token-spent other later _
        (run-spent _ os fresh (spent-consume_token agent_id now s taken))

-- `ValidateToken` accepts a token exactly if `ConsumeToken` would take it at that time, and gives
-- the same error otherwise.
pub consume_token-validate_token :
    (token agent_id : String) (now : ℕ) (s : Store)
    → (validate_token token now s >>= λ _. ok tt) ≡ (consume_token token agent_id now s).1
consume_token-validate_token token agent_id now s =
    elim (consume_token_cases token agent_id now s) [
      | inl (e, left, checked) ↦ rw (left, checked)
      | inr (t, _, _, _, left, checked) ↦ rw (left, checked)
    ]
