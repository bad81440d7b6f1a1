-- ===== src/Examples/ServerExamples.antt =====
-- backend/internal/agent/server.go at concrete inputs
use podman_manager.Prelude.{
  ◌≡◌, refl, true, false, Option, none, some, List, [], ◌∷◌, Result, ok, err, lookup, put,
  trim_space, trim_left, trim_right, trim_before, is_space, trim_prefix, strip,
}
use podman_manager.Enroll
use podman_manager.Enroll.{
  Store, EnrollmentToken, AgentCredential, saved, directory_failed, creating_directory,
  validate_token, consume_token, get_credential, save_credentials, register_credential,
  revoke_credential,
}
use podman_manager.Enroll.Runs
use podman_manager.Enroll.Runs.{cleanup}
use podman_manager.Examples.EnrollExamples.{nas, opened-IsKeyed, with_token}
use podman_manager.Agent.Registry.{new_registry, register, get, with_times, evict, update_heartbeat}
use podman_manager.Agent.Messages.{
  AgentMessage, volume_list_response, list_volumes, event_stream_data, request_id,
  from_agent_message, convert, request_id_of, heartbeat,
}
use podman_manager.Agent.Server.{
  Server, Metadata, Received, message, Error, invalid_credentials, unauthenticated, EnrollRequest,
  EnrollResponse, valid_credential, credentials_from_metadata, first_metadata, check_enroll,
  connect, commit_enroll, enroll, begin_command, end_command, route_response, open_stream,
  close_stream, serve, serve_message, new_agent, not_connected,
}
use podman_manager.Agent.Server.Access.{
  IsBacked, stored_valid, valid_credential_exact, connect-revoked,
}
use podman_manager.Agent.Server.Enrolment.{commit_enroll_once, enroll_admits}
use podman_manager.Agent.Server.Streams.{stream_of, close_stream_drops_newer}
use podman_manager.Agent.Server.Routing.{end_command-route_response}

abbrev md : Option Metadata
md = some (
    ("agent-id", "a1" ∷ [])
    ∷ ("authorization", "Bearer secret" ∷ [])
    ∷ ("hostname", "nas" ∷ [])
    ∷ [])

abbrev s : Server
s = record {
  registry = new_registry;
  enroll_store = with_token;
  credentials = [];
  commands = [];
  stream_callbacks = [];
}

s-IsBacked : IsBacked s
unfolding lookup
s-IsBacked = record { keyed = opened-IsKeyed; backed = λ k c h. cc }

credentials_from_metadata_test :
    credentials_from_metadata md
    ≡ record { agent_id = "a1"; credential = "secret"; hostname = "nas" }
unfolding credentials_from_metadata first_metadata lookup trim_space trim_left trim_right
    trim_before is_space trim_prefix strip
credentials_from_metadata_test = refl

valid_credential_exact_example :
    valid_credential "a1" "secret" ("a1" ∷ []) s
    ≡ stored_valid "secret" (get_credential "a1" with_token)
valid_credential_exact_example = valid_credential_exact "a1" "secret" ("a1" ∷ []) s s-IsBacked

abbrev req : EnrollRequest
req = record { token = " t1 "; host_id = "nas" }

abbrev granted : EnrollResponse
granted = record { agent_id = "a9"; credential = "new" }

-- the server after an enrolment, and after its store has cleaned up
abbrev enrolled : Server
enrolled = (commit_enroll "t1" req "a9" "new" 8 8 saved ("a1" ∷ "a9" ∷ []) s).0

abbrev cleaned : Server
cleaned = record enrolled {
  enroll_store = Runs.run enrolled.enroll_store (cleanup 9 ("t1" ∷ []) ∷ []);
}

commit_enroll_once_example :
    (e : Enroll.Error) × (commit_enroll "t1" req "b9" "newer" 10 10 saved [] cleaned
      ≡ (cleaned, err (unauthenticated e)))
unfolding commit_enroll consume_token register_credential save_credentials lookup
commit_enroll_once_example =
    commit_enroll_once "t1" req "a9" "new" 8 8 saved ("a1" ∷ "a9" ∷ []) s granted
      (cleanup 9 ("t1" ∷ []) ∷ []) req "b9" "newer" 10 10 saved [] refl (refl, tt)

abbrev failed : Server × Result Error EnrollResponse
failed = enroll (some req) 8 8 8 (some ("a9", "new")) directory_failed ("a1" ∷ "a9" ∷ []) s

abbrev done : Server × Result Error EnrollResponse
done = enroll (some req) 8 8 8 (some ("a9", "new")) saved ("a1" ∷ "a9" ∷ []) s

enroll_admits_example :
    (valid_credential "a9" "new" ("a9" ∷ "a1" ∷ []) done.0 ≡ true)
    × ((t : EnrollmentToken) × (validate_token (trim_space " t1 ") 8 with_token ≡ ok t))
    × ((e : Enroll.Error) × (consume_token (trim_space " t1 ") "a7" 9 done.0.enroll_store
          ≡ (done.0.enroll_store, err e)))
unfolding enroll check_enroll commit_enroll consume_token validate_token register_credential
    save_credentials lookup trim_space trim_left trim_right trim_before is_space
enroll_admits_example =
    enroll_admits req 8 8 8 "a9" "new" saved ("a1" ∷ "a9" ∷ []) ("a9" ∷ "a1" ∷ []) s granted "a7" 9
      refl refl

abbrev stolen : List Received
stolen = message (some (event_stream_data "r1" [])) 9 true ∷ []

abbrev revoked_server : Server
revoked_server = record s {
  enroll_store =
      Runs.run (revoke_credential "a1" directory_failed ("a1" ∷ []) with_token).0
        (cleanup 9 [] ∷ []);
}

connect-revoked_example :
    connect md 10 1 ("a1" ∷ []) stolen revoked_server
    ≡ (revoked_server, some (err invalid_credentials))
unfolding credentials_from_metadata first_metadata lookup trim_space trim_left trim_right
    trim_before is_space trim_prefix strip
connect-revoked_example =
    connect-revoked s md nas directory_failed ("a1" ∷ []) (cleanup 9 [] ∷ []) 10 1 ("a1" ∷ [])
      stolen refl (refl, tt)

-- a command to an agent waits, and so does a callback
abbrev waiting : Server
waiting = record s {
  commands = ("a1", record { buffer = []; size = 1 }) ∷ [];
  stream_callbacks = ("r1", record { buffer = []; size = 2 }) ∷ [];
}

-- an agent is connected
abbrev connected : Server
connected = record s {
  registry =
      register 3
        (some (record {
          id = "a1";
          hostname = "nas";
          agent_version = "";
          podman_version = "";
          capabilities = [];
          connected_at = 3;
          last_heartbeat = 3;
          stream = some 1;
        }))
        new_registry;
}

abbrev beats : List Received
beats = message (some (heartbeat "h1")) 4 true ∷ []

abbrev beaten : Server
beaten = (serve "a1" beats connected).0

-- the agent has connected again
abbrev reconnected : Server
reconnected = record beaten {
  registry = register 5 (some (new_agent (credentials_from_metadata md) 5 2)) beaten.registry;
}

abbrev both : Server
both = (serve "a1" beats reconnected).0

abbrev left : Server
left = (serve "a1" beats (close_stream "a1" both)).0

close_stream_drops_newer_example :
    (stream_of (get "a1" both.registry) ≡ some (some 2))
    × (begin_command "a1" true left ≡ (left, err not_connected))
unfolding open_stream serve serve_message credentials_from_metadata first_metadata lookup trim_space
    trim_left trim_right trim_before is_space trim_prefix strip valid_credential register with_times
    evict put update_heartbeat get_credential
close_stream_drops_newer_example =
    close_stream_drops_newer md md 3 5 1 2 ("a1" ∷ []) ("a1" ∷ []) beats beats beats "a1" s
      connected reconnected true refl refl

abbrev answer : AgentMessage
answer = some (volume_list_response "r1" (1 ∷ []))

abbrev sent : Server
sent = (begin_command "a1" true connected).0

abbrev answered : Server
answered =
    route_response "a1" (some (volume_list_response "r2" [])) (route_response "a1" answer sent)

end_command-route_response_example :
    ((end_command "a1" false sent).1 ≡ none)
    × ((end_command "a1" false answered).1 ≡ some (ok (list_volumes "r1" (1 ∷ []))))
    × (lookup "a1" (end_command "a1" false answered).0.commands ≡ none)
unfolding begin_command get register with_times evict lookup put request_id request_id_of
    from_agent_message convert
end_command-route_response_example =
    end_command-route_response "a1" connected answer (some (volume_list_response "r2" []))
      (list_volumes "r1" (1 ∷ [])) refl refl refl refl

abbrev event : AgentMessage
event = some (event_stream_data "r1" (7 ∷ []))
