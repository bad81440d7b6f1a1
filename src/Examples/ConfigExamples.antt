-- ===== src/Examples/ConfigExamples.antt =====
-- backend/internal/config and backend/internal/api/origin.go at concrete inputs
use podman_manager.Prelude.{
  false, ◌≡◌, refl, none, some, [], ◌∷◌, ok, pos, negsuc, trim_space, trim_left, trim_right,
  trim_before, is_space,
}
use podman_manager.Config.Lower.{Runes, lower, lower_rune, matching}
use podman_manager.Config.Origins.{
  Urls, new_origin_policy, normalize_all, normalize_allowed_origin, normalize_url,
  normalize_origin_host, allowed_origin,
}
use podman_manager.Config.Origins.Policy.{lets_in, allowed_origin_configured}
use podman_manager.Config.Hosts.{HostConfig, transport_of, completed, check_host, validate_hosts}
use podman_manager.Config.{
  Config, validate_server, validate_all_hosts, validate_ssh, validate_auth, driver_of,
  validate_state, slash_before, trim_slashes, fill_docker, fill_open_claw, validate,
}
use podman_manager.Config.Valid.{IsValid, validate-IsValid}

abbrev runes : Runes
runes = λ c. c

-- every URL is "http" at "nas:8080", and no host has a port to split off
abbrev urls : Urls
urls = record {
  parse = λ raw. some (record {
    scheme = "http";
    host = "NAS";
    path = "";
    raw_query = "";
    fragment = "";
    has_user = false;
  });
  split_host_port = λ host. none;
  join_host_port = λ name port. name;
}

abbrev nas : HostConfig
nas = record {
  name = "nas";
  address = "10.0.0.2";
  port = pos 0;
  user = "admin";
  mode = "rootless";
  transport = " SSH ";
  agent_id = "";
}

abbrev given : Config
given = record {
  server = record {
    port = pos 18734;
    bind = "";
    auth_db_path = "";
    allowed_origins = "http://NAS" ∷ [];
  };
  ssh = record {
    key_path = "/key";
    connect_timeout = pos 0;
    keepalive_interval = pos 0;
    strict_host_key_checking = "";
    legacy_strict_host_key_checking = "Off";
  };
  hosts = nas ∷ [];
  auth = record { enabled = false; username = ""; password_hash = ""; session_ttl = negsuc 0 };
  state = record { driver = ""; dsn = ""; sqlite_path = "" };
  docker = record { compose_repo_path = ""; dockmon_url = "http://d//" };
  open_claw = record { url = ""; chat_path = ""; token_env = "" };
  enable_events_stream = false;
  cache_ttl = pos 0;
}

abbrev validated : Config
validated = record {
  server = record {
    port = pos 18734;
    bind = "";
    auth_db_path = "";
    allowed_origins = "http://nas" ∷ [];
  };
  ssh = record {
    key_path = "/key";
    connect_timeout = pos 0;
    keepalive_interval = pos 0;
    strict_host_key_checking = "off";
    legacy_strict_host_key_checking = "";
  };
  hosts = record nas { transport = "ssh"; port = pos 22 } ∷ [];
  auth = record {
    enabled = false;
    username = "";
    password_hash = "";
    session_ttl = pos 43_200_000_000_000;
  };
  state = record { driver = "sqlite"; dsn = ""; sqlite_path = "" };
  docker = record { compose_repo_path = "../homelab-docker"; dockmon_url = "http://d" };
  open_claw = record { url = ""; chat_path = "/api/chat"; token_env = "OPENCLAW_GATEWAY_TOKEN" };
  enable_events_stream = false;
  cache_ttl = pos 3_000_000_000;
}

given_passes : validate runes urls given ≡ ok validated
unfolding validate validate_server validate_all_hosts validate_ssh validate_auth driver_of
    validate_state slash_before trim_slashes fill_docker fill_open_claw normalize_all
    normalize_allowed_origin normalize_url normalize_origin_host transport_of completed check_host
    validate_hosts lower lower_rune matching trim_space trim_left trim_right trim_before is_space
given_passes = refl

validate-IsValid_example : IsValid runes validated
validate-IsValid_example = validate-IsValid runes urls given validated given_passes

allowed_origin_configured_example :
    (allowed_origin runes urls (new_origin_policy ("http://nas" ∷ "*" ∷ [])) "http://NAS" "other").1
    ≡ lets_in runes urls ("http://nas" ∷ "*" ∷ []) "http://NAS" "other"
allowed_origin_configured_example =
    allowed_origin_configured runes urls ("http://nas" ∷ "*" ∷ []) "http://NAS" "other"
