-- ===== src/Enroll.antt =====
-- backend/internal/enroll/store.go: the tokens that enrol an agent once, and the credentials that
-- enrolled agents keep. A method takes the state, what it reads of the clock and of the random
-- source, and the order in which Go visits a map, and returns the new state beside its result.
pub mod Credentials
pub mod Runs
pub mod Revocation
pub mod Handler
use podman_manager.Prelude.{
  ℕ, zero, String, Bool, true, false, not, ◌&&◌, Option, none, some, List, [], ◌∷◌, map, ◌==◌,
  Result, ok, err, ◌>>=◌, Map, lookup, put, delete, adjust, ℤ, pos, add, not_positive, hour, ltb,
  if◌then◌else◌,
}

pub record EnrollmentToken : Type 0 where
  pub token : String
  pub created_at : ℕ
  pub expires_at : ℕ
  pub used : Bool
  pub agent_id : String

pub record AgentCredential : Type 0 where
  pub agent_id : String
  pub hostname : String
  pub credential : String
  pub created_at : ℕ
  pub last_seen : ℕ
  pub active : Bool

-- The credentials file, as `os.ReadFile` and `json.Unmarshal` see it. A JSON array may hold `null`.
pub data File : Type 0 where
  missing unreadable blank invalid : File
  json : List (Option AgentCredential) → File

-- How a write of that file ends; a failed write may leave any content behind.
pub data SaveOutcome : Type 0 where
  saved encoding_failed directory_failed : SaveOutcome
  writing_failed : File → SaveOutcome

pub data Error : Type 0 where
  token_not_found token_used token_expired credential_not_found random_failed : Error
  reading_credentials decoding_credentials : Error
  encoding_credentials creating_directory writing_credentials : Error

-- `file` is the content at `credentials_path`
pub record Store : Type 0 where
  pub tokens : Map EnrollmentToken
  pub credentials : Map AgentCredential
  pub token_ttl : ℤ
  pub credentials_path : String
  pub file : File

unfoldable pub new_store : ℤ → File → Store
new_store token_ttl file = record {
  tokens = [];
  credentials = [];
  token_ttl = if not_positive token_ttl then pos hour else token_ttl;
  credentials_path = "";
  file = file;
}

-- the loop of `loadCredentials` over the decoded file
unfoldable pub load_all : List (Option AgentCredential) → Map AgentCredential → Map AgentCredential
load_all [] m = m
load_all (none ∷ creds) m = load_all creds m
load_all (some cred ∷ creds) m =
    load_all creds (if cred.agent_id == "" then m else put cred.agent_id cred m)

unfoldable pub load_credentials : Store → Result Error Store
unfolding load_all
load_credentials s = elim s.file [
  | missing ↦ ok s
  | unreadable ↦ err reading_credentials
  | blank ↦ ok s
  | invalid ↦ err decoding_credentials
  | json creds ↦ ok (record s { credentials = load_all creds s.credentials })
]

unfoldable pub new_persistent_store : ℤ → String → File → Result Error Store
unfolding new_store load_credentials
new_persistent_store token_ttl path file =
    let store = record (new_store token_ttl file) { credentials_path = path } in
    if path == "" then ok store else load_credentials store

-- the values that `range m` yields, in the order of the keys
unfoldable pub collect {ℓ} : {V : Type ℓ} → List String → Map V → List V
collect [] m = []
collect (k ∷ ks) m =
    let rest = collect ks m in elim (lookup k m) [ none ↦ rest | some v ↦ v ∷ rest ]

unfoldable pub save_credentials :
    SaveOutcome → List String → Store → Store × Result Error (Unit {0})
unfolding collect
save_credentials out order s = if s.credentials_path == "" then (s, ok tt) else elim out [
  | saved ↦ (record s { file = json (map some (collect order s.credentials)) }, ok tt)
  | encoding_failed ↦ (s, err encoding_credentials)
  | directory_failed ↦ (s, err creating_directory)
  | writing_failed left ↦ (record s { file = left }, err writing_credentials)
]

-- `random` is what `generateToken` draws, or nothing if the random source fails
unfoldable pub create_token : Option String → ℕ → Store → Store × Result Error EnrollmentToken
create_token none now s = (s, err random_failed)
create_token (some token) now s =
    let t : EnrollmentToken = record {
      token = token;
      created_at = now;
      expires_at = add now s.token_ttl;
      used = false;
      agent_id = "";
    } in
    (record s { tokens = put token t s.tokens }, ok t)

unfoldable pub validate_token : String → ℕ → Store → Result Error EnrollmentToken
validate_token token now s = elim (lookup token s.tokens) [
  | none ↦ err token_not_found
  | some t ↦
      if t.used then err token_used else if ltb t.expires_at now then err token_expired else ok t
]

unfoldable pub consume_token : String → String → ℕ → Store → Store × Result Error (Unit {0})
consume_token token agent_id now s = elim (lookup token s.tokens) [
  | none ↦ (s, err token_not_found)
  | some t ↦
      if t.used
      then (s, err token_used)
      else if ltb t.expires_at now
      then (s, err token_expired)
      else (
        record s { tokens = put token (record t { used = true; agent_id = agent_id }) s.tokens },
        ok tt,
      )
]

-- `none` is a nil pointer
unfoldable pub register_credential :
    Option AgentCredential → SaveOutcome → List String → Store → Store × Result Error (Unit {0})
unfolding save_credentials
register_credential none out order s = (s, ok tt)
register_credential (some cred) out order s =
    if cred.agent_id == ""
    then (s, ok tt)
    else save_credentials out order
        (record s { credentials = put cred.agent_id cred s.credentials })

unfoldable pub get_credential : String → Store → Option AgentCredential
get_credential agent_id s = lookup agent_id s.credentials

-- the loop of `GetCredentialByToken`: the first credential that `range` meets with this token
unfoldable pub find_credential : String → List String → Map AgentCredential → Option AgentCredential
find_credential token [] m = none
find_credential token (k ∷ ks) m =
    let rest = find_credential token ks m in
    elim (lookup k m) [
      | none ↦ rest
      | some cred ↦ if cred.credential == token then some cred else rest
    ]

unfoldable pub get_credential_by_token : String → List String → Store → Option AgentCredential
unfolding find_credential
get_credential_by_token token order s = find_credential token order s.credentials

unfoldable pub revoke_credential :
    String → SaveOutcome → List String → Store → Store × Result Error (Unit {0})
unfolding save_credentials
revoke_credential agent_id out order s = elim (lookup agent_id s.credentials) [
  | none ↦ (s, err credential_not_found)
  | some cred ↦
      save_credentials out order
        (record s { credentials = put agent_id (record cred { active = false }) s.credentials })
]

unfoldable pub list_credentials : List String → Store → List AgentCredential
unfolding collect
list_credentials order s = collect order s.credentials

-- the loop of `CleanupExpired`
unfoldable pub drop_expired : ℕ → List String → Map EnrollmentToken → Map EnrollmentToken
drop_expired now [] m = m
drop_expired now (k ∷ ks) m =
    drop_expired now ks
      (elim (lookup k m) [ none ↦ m | some t ↦ if ltb t.expires_at now then delete k m else m ])

unfoldable pub cleanup_expired : ℕ → List String → Store → Store
unfolding drop_expired
cleanup_expired now order s = record s { tokens = drop_expired now order s.tokens }
