-- ===== src/Connect/Enrolment/Outcomes.antt =====
-- What `EnsureEnrolled` of agent/internal/connect.go leaves behind.
use podman_manager.Prelude.{
  String, Bool, true, false, not, ◌&&◌, ◌||◌, Option, none, some, Result, ok, err, ◌==◌, ◌≡◌, refl,
  ◌∙◌, trim_space, trim_space_twice, arith, inl, inr, Bool-cases,
}
use podman_manager.Connect.Enrolment.{
  AgentConfig, EnrollRequest, EnrollResponse, EnrollError, enroll_failed, dial_failed,
  host_or_unknown, is_blank, accept, ensure_enrolled,
}

-- both credentials are there
abbrev pub is_enrolled : AgentConfig → Bool
is_enrolled cfg = not (is_blank cfg.id) && not (is_blank cfg.credential)

-- an error leaves the configuration, and `true` new credentials without a token
abbrev pub Leaves : AgentConfig → Result EnrollError Bool × AgentConfig → Type 0
Leaves cfg (err e, after) = (after ≡ cfg) × (is_enrolled cfg ≡ false)
Leaves cfg (ok false, after) = (after ≡ cfg) × (is_enrolled cfg ≡ true)
Leaves cfg (ok true, after) =
    (is_enrolled cfg ≡ false) × (is_enrolled after ≡ true) × (after.token ≡ "")

neither_blank : (b c d : Bool) → (b || c || d) ≡ false → (not c && not d) ≡ true
neither_blank b c d h = ground (arith)

both_filled :
    (r : EnrollResponse)
    → (not r.success || is_blank r.agent_id || is_blank r.credential) ≡ false
    → (not (is_blank (trim_space r.agent_id)) && not (is_blank (trim_space r.credential))) ≡ true
both_filled r e =
    (λ i. not (trim_space_twice r.agent_id i == "") && not (trim_space_twice r.credential i == ""))
    ∙ neither_blank (not r.success) (is_blank r.agent_id) (is_blank r.credential) e

accept-Leaves :
    (r : Option EnrollResponse) (cfg : AgentConfig)
    → is_enrolled cfg ≡ false
    → Leaves cfg (accept r cfg)
unfolding accept
accept-Leaves none cfg h = (refl, h)
accept-Leaves (some r) cfg h =
    elim (Bool-cases (not r.success || is_blank r.agent_id || is_blank r.credential)) [
      | inl e ↦ rw (e, accept) (refl, h)
      | inr e ↦ rw (e, accept) (h, both_filled r e, refl)
    ]

-- Whatever the manager answers: an error leaves the agent's configuration as it is, without
-- credentials; `false` is the answer when the agent has credentials, and changes nothing; and after
-- `true` there are credentials where there were none, and the token is gone.
pub ensure_enrolled-Leaves :
    (dial : Result String (Unit {0})) (hostname : Result String String)
    (enroll : EnrollRequest → Result String (Option EnrollResponse)) (version : String)
    (cfg : AgentConfig)
    → Leaves cfg (ensure_enrolled dial hostname enroll version cfg)
unfolding ensure_enrolled
ensure_enrolled-Leaves dial hostname enroll version cfg = elim (Bool-cases (is_enrolled cfg)) [
  | inl e ↦ rw (e, ensure_enrolled) (refl, e)
  | inr e ↦ elim (Bool-cases (is_blank cfg.token)) [
    | inl f ↦ rw (e, f, ensure_enrolled) (refl, e)
    | inr f ↦ rw (e, f, ensure_enrolled) (answered dial e)
  ]
]
  where
    request : EnrollRequest
    request = record {
      token = trim_space cfg.token;
      host_id = host_or_unknown hostname;
      agent_version = version;
    }

    called :
        (o : Result String (Option EnrollResponse))
        → is_enrolled cfg ≡ false
        → Leaves cfg
            (elim o [ err e ↦ (err (enroll_failed e), cfg) | ok response ↦ accept response cfg ])
    called (err e) h = (refl, h)
    called (ok r) h = accept-Leaves r cfg h

    answered :
        (d : Result String (Unit {0}))
        → is_enrolled cfg ≡ false
        → Leaves cfg (elim d [
          | err e ↦ (err (dial_failed e), cfg)
          | ok _ ↦ elim (enroll request) [
            | err e ↦ (err (enroll_failed e), cfg)
            | ok response ↦ accept response cfg
          ]
        ])
    answered (err e) h = (refl, h)
    answered (ok _) h = called (enroll request) h
