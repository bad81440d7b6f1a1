-- ===== src/Examples/EnrollExamples.antt =====
-- backend/internal/enroll at concrete inputs
use podman_manager.Prelude.{
  ◌≡◌, ◌≢◌, refl, true, false, none, some, List, [], ◌∷◌, ok, err, pos, lookup, put, keys,
  keys_complete,
}
use podman_manager.Prelude.{◌⊎◌, ◌==◌, trim_space, trim_left, trim_right, trim_before, is_space}
use podman_manager.Enroll.{directory_failed}
use podman_manager.Enroll.Credentials.{disabled}
use podman_manager.Enroll.Handler.{Reply, status_of, handle_revoke_agent}
use podman_manager.Enroll.Handler.Outcomes.{handle_revoke_agent_outcomes}
use podman_manager.Enroll
use podman_manager.Enroll.{
  load_credentials, load_all, save_credentials, Store, EnrollmentToken, AgentCredential, File, json,
  saved, Error, new_store, new_persistent_store, create_token, validate_token, consume_token,
  register_credential, revoke_credential, get_credential, find_credential,
}
use podman_manager.Enroll.Runs.{Operation, create, consume, cleanup, run, consume_token_once}
use podman_manager.Enroll.Credentials.{
  IsKeyed, Visits, restart, new_persistent_store-IsKeyed, restart-register_credential,
}

abbrev pub nas : AgentCredential
nas = record {
  agent_id = "a1";
  hostname = "nas";
  credential = "secret";
  created_at = 5;
  last_seen = 5;
  active = true;
}

abbrev pub file : File
file = json (some nas ∷ none ∷ [])

-- a store that is opened on that file
abbrev pub opened : Store
opened = record {
  tokens = [];
  credentials = ("a1", nas) ∷ [];
  token_ttl = pos 100;
  credentials_path = "/data/credentials.json";
  file = file;
}

opened_test : new_persistent_store (pos 100) "/data/credentials.json" file ≡ ok opened
unfolding new_persistent_store new_store load_credentials load_all put
opened_test = refl

abbrev pub with_token : Store
with_token = record opened {
  tokens =
      ("t1", record { token = "t1"; created_at = 7; expires_at = 107; used = false; agent_id = "" })
      ∷ [];
}

with_token_test : (create_token (some "t1") 7 opened).0 ≡ with_token
unfolding create_token put
with_token_test = refl

expired_test : validate_token "t1" 108 with_token ≡ err Enroll.token_expired
unfolding validate_token lookup
expired_test = refl

pub opened-IsKeyed : IsKeyed opened.credentials
unfolding new_persistent_store new_store load_credentials load_all put
opened-IsKeyed = new_persistent_store-IsKeyed (pos 100) "/data/credentials.json" file opened refl

abbrev busy : List Operation
busy = consume "t1" "a2" 9 ∷ create (some "t2") 10 ∷ cleanup 11 ("t1" ∷ "t2" ∷ []) ∷ []

consume_token_once_example :
    (e : Error) × (consume_token "t1" "a3" 12 (run (consume_token "t1" "a1" 8 with_token).0 busy)
      ≡ (run (consume_token "t1" "a1" 8 with_token).0 busy, err e))
unfolding consume_token lookup
consume_token_once_example =
    consume_token_once "t1" with_token "a1" 8 busy "a3" 12 refl (refl, (refl, (refl, tt)))

abbrev printer : AgentCredential
printer = record nas { agent_id = "a2"; hostname = "printer"; credential = "other" }

put-Visits : Visits ("a1" ∷ "a2" ∷ []) (put "a2" printer opened.credentials)
unfolding put keys
put-Visits = λ k v. keys_complete k (put "a2" printer opened.credentials) v

restart-register_credential_example :
    (t : Store) × (restart (register_credential (some printer) saved ("a1" ∷ "a2" ∷ []) opened).0
      ≡ ok t)
    × (get_credential "a2" t ≡ some printer)
unfolding register_credential save_credentials
restart-register_credential_example =
    restart-register_credential printer saved ("a1" ∷ "a2" ∷ []) opened opened-IsKeyed put-Visits
      refl refl refl

opened-Visits : Visits ("a1" ∷ []) opened.credentials
unfolding keys
opened-Visits = λ k v. keys_complete k opened.credentials v

abbrev asked : Store × Reply
asked = handle_revoke_agent " a1 " directory_failed ("a1" ∷ []) opened

handle_revoke_agent_outcomes_example :
    (((trim_space " a1 " == "") ≡ true) × (status_of asked.1 ≡ 400) × (asked.0 ≡ opened))
    ⊎ ((lookup (trim_space " a1 ") opened.credentials ≡ none)
        × (status_of asked.1 ≡ 404)
        × (asked.0 ≡ opened))
    ⊎ ((c : AgentCredential) × (lookup (trim_space " a1 ") opened.credentials ≡ some c)
        × (get_credential (trim_space " a1 ") asked.0 ≡ some (disabled c))
        × ((status_of asked.1 ≡ 200) ⊎ ((status_of asked.1 ≡ 404) × (directory_failed ≢ saved))))
handle_revoke_agent_outcomes_example =
    handle_revoke_agent_outcomes " a1 " directory_failed ("a1" ∷ []) opened

revocation_unsaved_test : status_of asked.1 ≡ 404
unfolding handle_revoke_agent revoke_credential save_credentials lookup trim_space trim_left
    trim_right trim_before is_space
revocation_unsaved_test = refl
