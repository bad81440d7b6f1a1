-- ===== src/Agent/Server/Enrolment.antt =====
-- What an enrolment does, on each of its outcomes.
use podman_manager.Prelude.{
  ℕ, String, ◌≡◌, ◌≢◌, refl, ap, sym, ◌∙◌, true, false, Option, none, some, List, [], ◌∷◌, ◌==◌,
  ◌⊎◌, eq_refl, inl, inr, arith, Result, ok, err, put, lookup-put, trim_space, Result-cases,
  if◌then◌else◌,
}
use podman_manager.Enroll
use podman_manager.Enroll.{
  AgentCredential, SaveOutcome, get_credential, register_credential, consume_token, validate_token,
  saved,
}
use podman_manager.Enroll.Credentials.{register_credential_error}
use podman_manager.Enroll.Runs.{
  run, Operation, register, IsFresh, consume_token_cases, consume_token_once, step,
}
use podman_manager.Enroll.Revocation.{credentials-register_credential, credentials-consume_token}
use podman_manager.Agent.Server.{
  Server, Error, random_failed, unauthenticated, internal, EnrollRequest, EnrollResponse,
  check_enroll, commit_enroll, enroll, valid_credential,
}
use podman_manager.Agent.Server.Access.{valid_credential_stored}

-- the credential that an enrolment stores
abbrev pub granted : EnrollRequest → String → String → ℕ → AgentCredential
granted req agent_id credential created = record {
  agent_id = agent_id;
  hostname = trim_space req.host_id;
  credential = credential;
  created_at = created;
  last_seen = created;
  active = true;
}

module _ (token : String) (req : EnrollRequest) (agent_id credential : String) (now created : ℕ)
    (out : SaveOutcome) (order : List String) (s : Server) where
  abbrev pub registered : Enroll.Store × Result Enroll.Error (Unit {0})
  registered =
      register_credential (some (granted req agent_id credential created)) out order
        (consume_token token agent_id now s.enroll_store).0

  abbrev outcome : Server × Result Error EnrollResponse
  outcome = commit_enroll token req agent_id credential now created out order s

  commit_enroll_refused :
      (e : Enroll.Error)
      → consume_token token agent_id now s.enroll_store ≡ (s.enroll_store, err e)
      → outcome ≡ (s, err (unauthenticated e))
  unfolding commit_enroll
  commit_enroll_refused e h = ground arith

  commit_enroll_failed :
      (e : Enroll.Error)
      → (consume_token token agent_id now s.enroll_store).1 ≡ ok tt
      → registered.1 ≡ err e
      → outcome ≡ (record s { enroll_store = registered.0 }, err (internal e))
  unfolding commit_enroll
  commit_enroll_failed e c h = ground arith

  commit_enroll_done :
      (consume_token token agent_id now s.enroll_store).1 ≡ ok tt
      → registered.1 ≡ ok tt
      → outcome ≡ (
        record s {
          enroll_store = registered.0;
          credentials = put agent_id credential s.credentials;
        },
        ok (record { agent_id = agent_id; credential = credential }),
      )
  unfolding commit_enroll
  commit_enroll_done c h = ground arith

  -- The three ways in which the second part of an enrolment ends.
  pub commit_enroll_cases :
      ((e : Enroll.Error) × (outcome ≡ (s, err (unauthenticated e))))
      ⊎ ((e : Enroll.Error) × (registered.1 ≡ err e)
          × (outcome ≡ (record s { enroll_store = registered.0 }, err (internal e))))
      ⊎ (((consume_token token agent_id now s.enroll_store).1 ≡ ok tt)
          × (registered.1 ≡ ok tt)
          × (outcome ≡ (
            record s {
              enroll_store = registered.0;
              credentials = put agent_id credential s.credentials;
            },
            ok (record { agent_id = agent_id; credential = credential }),
          )))
  commit_enroll_cases = elim (consume_token_cases token agent_id now s.enroll_store) [
    | inl (e, left, _) ↦ inl (e, commit_enroll_refused e left)
    | inr (t, _, _, _, left, _) ↦
        let taken : (consume_token token agent_id now s.enroll_store).1 ≡ ok tt =
          ap (λ p. p.1) left in
        elim (Result-cases registered.1) [
          | inl (_, h) ↦ inr (inr (taken, h, commit_enroll_done taken h))
          | inr (e, h) ↦ inr (inl (e, h, commit_enroll_failed e taken h))
        ]
  ]

-- A token enrols one agent at most: when an enrolment with it has succeeded, and then the store's
-- operations run in any order without drawing the token again, a second enrolment that had passed
-- its check before is refused at its commit, and leaves the server as it was.
pub commit_enroll_once :
    (token : String) (req : EnrollRequest) (agent_id credential : String) (now created : ℕ)
    (out : SaveOutcome) (order : List String) (s : Server) (resp : EnrollResponse)
    (os : List Operation) (req' : EnrollRequest) (agent_id' credential' : String)
    (now' created' : ℕ) (out' : SaveOutcome) (order' : List String)
    → (commit_enroll token req agent_id credential now created out order s).1 ≡ ok resp
    → IsFresh token os
    → let s' = (commit_enroll token req agent_id credential now created out order s).0 in
      let t : Server = record s' { enroll_store = run s'.enroll_store os } in
      (e : Enroll.Error) × (commit_enroll token req' agent_id' credential' now' created' out' order'
          t
        ≡ (t, err (unauthenticated e)))
commit_enroll_once token req agent_id credential now created out order s resp os req' agent_id'
      credential' now' created' out' order' done fresh =
    elim (commit_enroll_cases token req agent_id credential now created out order s) [
      | inl (e, left) ↦ absurd (cc (ap (λ p. p.1) left))
      | inr (inl (e, _, left)) ↦ absurd (cc (ap (λ p. p.1) left))
      | inr (inr (taken, _, left)) ↦
          let store = ap (λ p. p.0.enroll_store) left in
          let (e, refused) =
            consume_token_once token s.enroll_store agent_id now
              (register (some (granted req agent_id credential created)) out order ∷ os) agent_id'
              now' taken (refl, fresh) in
          (
            e,
            commit_enroll_refused token req' agent_id' credential' now' created' out' order' _ e
                (rw store (unfold run step in refused)),
          )
    ]

module _ (req : EnrollRequest) (now later created : ℕ) (out : SaveOutcome) (order : List String)
    (s : Server) where
  abbrev attempt : Option (String × String) → Server × Result Error EnrollResponse
  attempt drawn = enroll (some req) now later created drawn out order s

  enroll_undrawn : (e : Error) × (attempt none ≡ (s, err e))
  unfolding enroll
  enroll_undrawn = elim (Result-cases (check_enroll (some req) now s)) [
    | inr (e, c) ↦ (e, ground arith)
    | inl (token, c) ↦ (random_failed, ground arith)
  ]

  pub enroll_drawn :
      (agent_id credential : String)
      → ((e : Error) × (attempt (some (agent_id, credential)) ≡ (s, err e)))
        ⊎ ((token : String) × (check_enroll (some req) now s ≡ ok token)
            × (attempt (some (agent_id, credential))
                ≡ commit_enroll token req agent_id credential later created out order s))
  unfolding enroll
  enroll_drawn agent_id credential = elim (Result-cases (check_enroll (some req) now s)) [
    | inr (e, c) ↦ inl (e, ground arith)
    | inl (token, c) ↦ inr (token, c, ground arith)
  ]

-- An enrolment that fails leaves the server as it was, but for one case: the token was taken, and
-- the credentials file could not be written.
pub enroll_error :
    (req : EnrollRequest) (now later created : ℕ) (drawn : Option (String × String))
    (out : SaveOutcome) (order : List String) (s : Server) (e : Error)
    → (enroll (some req) now later created drawn out order s).1 ≡ err e
    → ((enroll (some req) now later created drawn out order s).0 ≡ s)
      ⊎ ((x : Enroll.Error) × (e ≡ internal x) × (out ≢ saved))
enroll_error req now later created none out order s e h =
    let (x, left) = enroll_undrawn req now later created out order s in inl (ap (λ p. p.0) left)
enroll_error req now later created (some (a, c)) out order s e h =
    elim (enroll_drawn req now later created out order s a c) [
      | inl (x, left) ↦ inl (ap (λ p. p.0) left)
      | inr (token, _, left) ↦ elim (commit_enroll_cases token req a c later created out order s) [
        | inl (x, done) ↦ inl (ap (λ p. p.0) (left ∙ done))
        | inr (inl (x, failed, done)) ↦ inr (
          x,
          cc (h, ap (λ p. p.1) (left ∙ done)),
          register_credential_error (granted req a c created) out order _ x failed,
        )
        | inr (inr (_, _, done)) ↦ absurd (cc (ap (λ p. p.1) (left ∙ done)))
      ]
    ]

check_enroll_ok :
    (req : EnrollRequest) (now : ℕ) (s : Server) (token : String)
    → check_enroll (some req) now s ≡ ok token
    → (token ≡ trim_space req.token)
      × ((t : Enroll.EnrollmentToken) × (validate_token (trim_space req.token) now s.enroll_store
            ≡ ok t))
unfolding check_enroll
check_enroll_ok req now s token h =
    elim (Result-cases (validate_token (trim_space req.token) now s.enroll_store)) [
      | inl (t, e) ↦ (ground arith, (t, e))
      | inr (x, e) ↦ absurd (ground arith)
    ]

-- what the server stores for the agent of a finished enrolment
pub granted_lookup :
    (token : String) (req : EnrollRequest) (agent_id credential : String) (now created : ℕ)
    (out : SaveOutcome) (order : List String) (s : Server) (k : String)
    → (agent_id == "") ≡ false
    → get_credential k (registered token req agent_id credential now created out order s).0 ≡ (
        if agent_id == k
        then some (granted req agent_id credential created)
        else get_credential k s.enroll_store)
unfolding get_credential
granted_lookup token req agent_id credential now created out order s k named =
    rw
      (
        credentials-register_credential (granted req agent_id credential created) out order
            (consume_token token agent_id now s.enroll_store).0 named,
        lookup-put,
        credentials-consume_token,
      )
      refl

-- A finished enrolment showed a valid token, lets the new agent in at once with the credential of the
-- answer, in whatever order Go visits the credentials, and leaves the token used: the store that the
-- server then has refuses it to every agent and at every time.
pub enroll_admits :
    (req : EnrollRequest) (now later created : ℕ) (agent_id credential : String) (out : SaveOutcome)
    (order visit : List String) (s : Server) (resp : EnrollResponse) (other : String) (moment : ℕ)
    → (agent_id == "") ≡ false
    → (enroll (some req) now later created (some (agent_id, credential)) out order s).1 ≡ ok resp
    → let s' = (enroll (some req) now later created (some (agent_id, credential)) out order s).0 in
      (valid_credential resp.agent_id resp.credential visit s' ≡ true)
      × ((t : Enroll.EnrollmentToken) × (validate_token (trim_space req.token) now s.enroll_store
            ≡ ok t))
      × ((e : Enroll.Error) × (consume_token (trim_space req.token) other moment s'.enroll_store
            ≡ (s'.enroll_store, err e)))
enroll_admits req now later created agent_id credential out order visit s resp other moment named
      done =
    elim (enroll_drawn req now later created out order s agent_id credential) [
      | inl (x, left) ↦ absurd (cc (ap (λ p. p.1) left))
      | inr (token, checked, left) ↦
          let (same, valid) = check_enroll_ok req now s token checked in
          elim (commit_enroll_cases token req agent_id credential later created out order s) [
            | inl (x, end) ↦ absurd (cc (ap (λ p. p.1) (left ∙ end)))
            | inr (inl (x, _, end)) ↦ absurd (cc (ap (λ p. p.1) (left ∙ end)))
            | inr (inr (taken, _, end)) ↦
                let stored = granted req agent_id credential created in
                let (e, used) =
                  consume_token_once token s.enroll_store agent_id later
                    (register (some stored) out order ∷ []) other moment taken (refl, tt) in
                let answer : resp ≡ record { agent_id = agent_id; credential = credential } =
                  cc (done, ap (λ p. p.1) (left ∙ end)) in
                (
                  rw (answer, left ∙ end)
                      (valid_credential_stored stored visit _
                        (rw
                          (granted_lookup token req agent_id credential later created out order s
                            agent_id named)
                          (rw eq_refl refl))
                        refl),
                  valid,
                  (e, rw (left ∙ end, sym same) (unfold run step in used)),
                )
          ]
    ]
