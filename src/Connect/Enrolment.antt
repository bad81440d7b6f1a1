-- ===== src/Connect/Enrolment.antt =====
-- `EnsureEnrolled` of agent/internal/connect.go. Whether the manager can be dialled, the host's name and
-- the call of `Enroll` are arguments.
pub mod Outcomes
use podman_manager.Prelude.{
  String, Bool, true, false, not, ◌&&◌, ◌||◌, Option, none, some, Result, ok, err, ◌==◌,
  if◌then◌else◌, trim_space,
}

-- the part of the configuration that enrolment reads and writes
pub record AgentConfig : Type 0 where
  pub id : String
  pub credential : String
  pub token : String

pub record EnrollRequest : Type 0 where
  pub token : String
  pub host_id : String
  pub agent_version : String

pub record EnrollResponse : Type 0 where
  pub success : Bool
  pub agent_id : String
  pub credential : String

pub data EnrollError : Type 0 where
  no_token incomplete_response : EnrollError
  dial_failed enroll_failed : String → EnrollError

abbrev pub is_blank : String → Bool
is_blank s = trim_space s == ""

-- `none` for a nil response
unfoldable pub accept : Option EnrollResponse → AgentConfig → Result EnrollError Bool × AgentConfig
unfolding trim_space
accept none cfg = (err incomplete_response, cfg)
accept (some r) cfg =
    if not r.success || is_blank r.agent_id || is_blank r.credential
    then (err incomplete_response, cfg)
    else (
      ok true,
      record { id = trim_space r.agent_id; credential = trim_space r.credential; token = "" },
    )

abbrev pub host_or_unknown : Result String String → String
host_or_unknown (err e) = "unknown"
host_or_unknown (ok h) = if is_blank h then "unknown" else h

unfoldable pub ensure_enrolled :
    Result String (Unit {0})
    → Result String String
    → (EnrollRequest → Result String (Option EnrollResponse))
    → String
    → AgentConfig
    → Result EnrollError Bool × AgentConfig
unfolding accept trim_space
ensure_enrolled dial hostname enroll version cfg =
    let request : EnrollRequest = record {
      token = trim_space cfg.token;
      host_id = host_or_unknown hostname;
      agent_version = version;
    } in
    if not (is_blank cfg.id) && not (is_blank cfg.credential)
    then (ok false, cfg)
    else (if is_blank cfg.token then (err no_token, cfg) else elim dial [
      | err e ↦ (err (dial_failed e), cfg)
      | ok _ ↦ elim (enroll request) [
        | err e ↦ (err (enroll_failed e), cfg)
        | ok response ↦ accept response cfg
      ]
    ])
