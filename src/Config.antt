-- ===== src/Config.antt =====
-- backend/internal/config/config.go, and backend/internal/api/origin.go, which compares origins by it.
pub mod Origins
pub mod Lower
pub mod Hosts
pub mod Valid
use podman_manager.Prelude.{
  ℕ, suc, String, Bool, true, false, not, ◌&&◌, ◌||◌, List, [], ◌∷◌, Result, ok, err, ◌>>=◌, ◌==◌,
  ltb, nat_eq, if◌then◌else◌, trim_space, is_space, ℤ, pos, negsuc, not_positive, second, hour, ◌*◌,
}
use podman_manager.Config.Lower.{Runes, lower}
use podman_manager.Config.Origins.{Urls, OriginError, normalize_all}
use podman_manager.Config.Hosts.{HostConfig, HostError, validate_hosts, is_nil}
use Prim.Native.Char.{Char, code}

pub record ServerConfig : Type 0 where
  pub port : ℤ
  pub bind : String
  pub auth_db_path : String
  pub allowed_origins : List String

pub record SshConfig : Type 0 where
  pub key_path : String
  pub connect_timeout : ℤ
  pub keepalive_interval : ℤ
  pub strict_host_key_checking : String
  pub legacy_strict_host_key_checking : String

pub record AuthConfig : Type 0 where
  pub enabled : Bool
  pub username : String
  pub password_hash : String
  pub session_ttl : ℤ

pub record StateConfig : Type 0 where
  pub driver : String
  pub dsn : String
  pub sqlite_path : String

pub record DockerConfig : Type 0 where
  pub compose_repo_path : String
  pub dockmon_url : String

pub record OpenClawConfig : Type 0 where
  pub url : String
  pub chat_path : String
  pub token_env : String

-- `Config`, without the paths of HomepageImport, which nothing here reads
pub record Config : Type 0 where
  pub server : ServerConfig
  pub ssh : SshConfig
  pub hosts : List HostConfig
  pub auth : AuthConfig
  pub state : StateConfig
  pub docker : DockerConfig
  pub open_claw : OpenClawConfig
  pub enable_events_stream : Bool
  pub cache_ttl : ℤ

pub data ConfigError : Type 0 where
  bad_port no_hosts key_path_required bad_host_key_mode : ConfigError
  auth_username_required auth_hash_required bad_driver dsn_required : ConfigError
  bad_origin : OriginError → ConfigError
  bad_host : HostError → ConfigError

-- `port < 1 || port > 65535` does not hold
abbrev pub is_port : ℤ → Bool
is_port (pos n) = not (nat_eq n 0) && ltb n 65536
is_port (negsuc n) = false

unfoldable pub validate_server : Runes → Urls → ServerConfig → Result ConfigError ServerConfig
unfolding normalize_all
validate_server runes urls s =
    if not (is_port s.port)
    then err bad_port
    else elim (normalize_all runes urls s.allowed_origins) [
      | err e ↦ err (bad_origin e)
      | ok origins ↦ ok (record s { allowed_origins = origins })
    ]

unfoldable pub validate_all_hosts : Runes → List HostConfig → Result ConfigError (List HostConfig)
unfolding validate_hosts
validate_all_hosts runes hosts =
    if is_nil hosts
    then err no_hosts
    else elim (validate_hosts runes [] hosts) [ err e ↦ err (bad_host e) | ok hs ↦ ok hs ]

abbrev pub or_else : String → String → String
or_else s d = if s == "" then d else s

abbrev pub is_host_key_mode : String → Bool
is_host_key_mode m = m == "strict" || m == "accept-new" || m == "off"

unfoldable pub validate_ssh : Runes → SshConfig → Result ConfigError SshConfig
unfolding lower trim_space
validate_ssh runes s =
    let given = lower runes (trim_space s.strict_host_key_checking) in
    let legacy = lower runes (trim_space s.legacy_strict_host_key_checking) in
    let mode = or_else (or_else given legacy) "accept-new" in
    if s.key_path == ""
    then err key_path_required
    else (if is_host_key_mode mode
        then ok (record s { strict_host_key_checking = mode; legacy_strict_host_key_checking = "" })
        else err bad_host_key_mode)

unfoldable pub validate_auth : AuthConfig → Result ConfigError AuthConfig
validate_auth a =
    let a = record a {
      session_ttl = if not_positive a.session_ttl then pos (12 * hour) else a.session_ttl;
    } in
    if a.enabled && a.username == ""
    then err auth_username_required
    else (if a.enabled && a.password_hash == "" then err auth_hash_required else ok a)

unfoldable pub driver_of : Runes → StateConfig → String
unfolding lower trim_space
driver_of runes s =
    or_else (lower runes (trim_space s.driver))
      (if trim_space s.dsn == "" then "sqlite" else "postgres")

unfoldable pub validate_state : Runes → StateConfig → Result ConfigError StateConfig
unfolding driver_of
validate_state runes s =
    let driver = driver_of runes s in
    if driver == "sqlite" || driver == "postgres"
    then (if driver == "postgres" && trim_space s.dsn == ""
        then err dsn_required
        else ok (record s { driver = driver }))
    else err bad_driver

unfoldable pub slash_before : Char → String → String
slash_before c String.[] = if nat_eq (code c) 47 then String.[] else String.◌∷◌ c String.[]
slash_before c (String.◌∷◌ d s) = String.◌∷◌ c (String.◌∷◌ d s)

-- `strings.TrimRight(s, "/")`
unfoldable pub trim_slashes : String → String
unfolding slash_before
trim_slashes String.[] = String.[]
trim_slashes (String.◌∷◌ c s) = slash_before c (trim_slashes s)

unfoldable pub fill_docker : DockerConfig → DockerConfig
unfolding trim_space trim_slashes
fill_docker d = record {
  compose_repo_path = or_else (trim_space d.compose_repo_path) "../homelab-docker";
  dockmon_url = trim_slashes (trim_space d.dockmon_url);
}

unfoldable pub fill_open_claw : OpenClawConfig → OpenClawConfig
fill_open_claw o = record o {
  chat_path = or_else o.chat_path "/api/chat";
  token_env = or_else o.token_env "OPENCLAW_GATEWAY_TOKEN";
}

-- `Validate`, which completes the configuration, or gives the first error
unfoldable pub validate : Runes → Urls → Config → Result ConfigError Config
unfolding validate_server validate_all_hosts validate_ssh validate_auth validate_state fill_docker
    fill_open_claw
validate runes urls c = validate_server runes urls c.server >>= λ server.
    validate_all_hosts runes c.hosts >>= λ hosts. validate_ssh runes c.ssh >>= λ ssh.
    validate_auth c.auth >>= λ auth. validate_state runes c.state >>= λ state. ok (record {
      server = server;
      ssh = ssh;
      hosts = hosts;
      auth = auth;
      state = state;
      docker = fill_docker c.docker;
      open_claw = fill_open_claw c.open_claw;
      enable_events_stream = c.enable_events_stream;
      cache_ttl = if not_positive c.cache_ttl then pos (3 * second) else c.cache_ttl;
    })
