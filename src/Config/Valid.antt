-- ===== src/Config/Valid.antt =====
-- What `Validate` of backend/internal/config/config.go lets through.
use podman_manager.Prelude.{
  ℕ, suc, String, Bool, true, false, not, ◌&&◌, ◌||◌, List, [], ◌∷◌, Result, ok, err, ◌>>=◌,
  bind_inv, ◌==◌, ◌≡◌, refl, sym, ap, ◌∙◌, subst, if◌then◌else◌, trim_space, contains, ℤ, pos,
  not_positive, second, ◌*◌, arith, inl, inr, Bool-cases, Result-cases,
}
use podman_manager.Config.Lower.{Runes}
use podman_manager.Config.Origins.{Urls}
use podman_manager.Config.Hosts.{
  HostConfig, HostError, is_nil, is_zero, completed, check_host, validate_hosts,
}
use podman_manager.Config.{
  ServerConfig, SshConfig, AuthConfig, StateConfig, Config, ConfigError, is_port, is_host_key_mode,
  validate_server, validate_all_hosts, validate_ssh, validate_auth, validate_state, validate,
  fill_docker, fill_open_claw,
}

-- a host that can be reached, with a name that none of `names` is
unfoldable pub is_valid_host : List String → HostConfig → Bool
is_valid_host names h =
    not (h.name == "")
    && not (contains h.name names)
    && (h.transport == "ssh" || h.transport == "agent" && not (trim_space h.agent_id == ""))
    && not (h.address == "")
    && not (h.user == "")
    && (h.mode == "rootful" || h.mode == "rootless")
    && not (is_zero h.port)

unfoldable pub are_valid_hosts : List String → List HostConfig → Bool
are_valid_hosts names [] = true
are_valid_hosts names (h ∷ hs) = is_valid_host names h && are_valid_hosts (h.name ∷ names) hs

port_given : (z : ℤ) → is_zero (if is_zero z then pos 22 else z) ≡ false
port_given z = elim (Bool-cases (is_zero z)) [ inl e ↦ rw e refl | inr e ↦ rw e e ]

check_host_valid :
    (runes : Runes) (names : List String) (h c : HostConfig)
    → check_host runes names h ≡ ok c
    → (is_valid_host names (completed runes h) ≡ true) × (completed runes h ≡ c)
unfolding check_host is_valid_host completed
check_host_valid runes names h c e = let p = port_given h.port in (ground (arith), ground (arith))

abbrev succeeds : List HostConfig → Result HostError (List HostConfig)
succeeds cs = ok cs

abbrev hosts_or_none : Result HostError (List HostConfig) → List HostConfig
hosts_or_none (ok cs) = cs
hosts_or_none (err e) = []

validate_hosts_valid :
    (runes : Runes) (names : List String) (hs cs : List HostConfig)
    → validate_hosts runes names hs ≡ ok cs
    → (are_valid_hosts names cs ≡ true) × (is_nil cs ≡ is_nil hs)
unfolding validate_hosts are_valid_hosts completed
validate_hosts_valid runes names [] cs e =
    let same = ap hosts_or_none e in (ap (are_valid_hosts names) (sym same), ap is_nil (sym same))
validate_hosts_valid runes names (h ∷ hs) cs e =
    let rest = validate_hosts runes (h.name ∷ names) hs in
    let (c, check, e1) =
      bind_inv (check_host runes names h) (λ c. rest >>= λ cs. ok (c ∷ cs)) cs e in
    let (ds, found, e2) = bind_inv rest (λ cs. succeeds (c ∷ cs)) cs e1 in
    let (valid, done) = check_host_valid runes names h c check in
    let (valids, _) = validate_hosts_valid runes (h.name ∷ names) hs ds found in
    let same = ap hosts_or_none e2 in
    let first : is_valid_host names c ≡ true = ap (is_valid_host names) (sym done) ∙ valid in
    let name : c.name ≡ h.name = ap (λ c. c.name) (sym done) in
    (
      ap (are_valid_hosts names) (sym same)
          ∙ rw first (ap (λ n. are_valid_hosts (n ∷ names) ds) name ∙ valids),
      ap is_nil (sym same),
    )

-- a configuration that the server can start with
pub record IsValid (runes : Runes) (c : Config) : Type 0 where
  pub port : is_port c.server.port ≡ true
  pub some_host : is_nil c.hosts ≡ false
  pub hosts : are_valid_hosts [] c.hosts ≡ true
  pub key_path : (c.ssh.key_path == "") ≡ false
  pub host_key_mode : is_host_key_mode c.ssh.strict_host_key_checking ≡ true
  pub credentials :
      (c.auth.enabled && (c.auth.username == "" || c.auth.password_hash == "")) ≡ false
  pub session_ttl : not_positive c.auth.session_ttl ≡ false
  pub cache_ttl : not_positive c.cache_ttl ≡ false
  pub driver : (c.state.driver == "sqlite" || c.state.driver == "postgres") ≡ true
  pub dsn : (c.state.driver == "postgres" && trim_space c.state.dsn == "") ≡ false

validate_server_valid :
    (runes : Runes) (urls : Urls) (s t : ServerConfig)
    → validate_server runes urls s ≡ ok t
    → is_port t.port ≡ true
unfolding validate_server
validate_server_valid runes urls s t h = ground (arith)

validate_ssh_valid :
    (runes : Runes) (s t : SshConfig)
    → validate_ssh runes s ≡ ok t
    → ((t.key_path == "") ≡ false) × (is_host_key_mode t.strict_host_key_checking ≡ true)
unfolding validate_ssh
validate_ssh_valid runes s t h = (ground (arith), ground (arith))

ttl_given : (z : ℤ) (n : ℕ) → not_positive (if not_positive z then pos (suc n) else z) ≡ false
ttl_given z n = elim (Bool-cases (not_positive z)) [ inl e ↦ rw e refl | inr e ↦ rw e e ]

validate_auth_valid :
    (a b : AuthConfig)
    → validate_auth a ≡ ok b
    → ((b.enabled && (b.username == "" || b.password_hash == "")) ≡ false)
      × (not_positive b.session_ttl ≡ false)
unfolding validate_auth
validate_auth_valid a b h =
    let p = ttl_given a.session_ttl 43_199_999_999_999 in (ground (arith), ground (arith))

validate_state_valid :
    (runes : Runes) (s t : StateConfig)
    → validate_state runes s ≡ ok t
    → ((t.driver == "sqlite" || t.driver == "postgres") ≡ true)
      × ((t.driver == "postgres" && trim_space t.dsn == "") ≡ false)
unfolding validate_state
validate_state_valid runes s t h = (ground (arith), ground (arith))

abbrev all_or_none : Result ConfigError (List HostConfig) → List HostConfig
all_or_none (ok cs) = cs
all_or_none (err e) = []

abbrev gives : Config → Result ConfigError Config
gives c = ok c

config_injective : (c d : Config) → gives c ≡ ok d → c ≡ d
config_injective c d h = cc

hosts_after :
    (runes : Runes) (hs cs : List HostConfig)
    → validate_all_hosts runes hs ≡ ok cs
    → (is_nil cs ≡ false) × (are_valid_hosts [] cs ≡ true)
unfolding validate_all_hosts
hosts_after runes hs cs h = elim (Bool-cases (is_nil hs)) [
  | inl e ↦ let k = rw (e, validate_all_hosts) at h in cc
  | inr e ↦ elim (Result-cases (validate_hosts runes [] hs)) [
    | inr (_, f) ↦ let k = rw (e, f, validate_all_hosts) at h in cc
    | inl (ds, f) ↦
        let k = rw (e, f, validate_all_hosts) at h in
        let same = ap all_or_none k in
        let (valid, some_host) = validate_hosts_valid runes [] hs ds f in
        (ap is_nil (sym same) ∙ some_host ∙ e, ap (are_valid_hosts []) (sym same) ∙ valid)
  ]
]

-- A configuration that passes has a port in range, at least one host, hosts that each have a name of
-- their own, an address, a user, a port, a mode and a transport (an agent with its ID), a key and a
-- mode for host keys, the credentials that it asks for, positive lifetimes, and a driver of the state
-- with the address that it needs.
pub validate-IsValid :
    (runes : Runes) (urls : Urls) (c d : Config) → validate runes urls c ≡ ok d → IsValid runes d
unfolding validate
validate-IsValid runes urls c d h =
    let (server, s1, h1) = bind_inv (validate_server runes urls c.server) _ d h in
    let (hosts, s2, h2) = bind_inv (validate_all_hosts runes c.hosts) _ d h1 in
    let (ssh, s3, h3) = bind_inv (validate_ssh runes c.ssh) _ d h2 in
    let (auth, s4, h4) = bind_inv (validate_auth c.auth) _ d h3 in
    let (state, s5, h5) = bind_inv (validate_state runes c.state) _ d h4 in
    let (some_host, valid) = hosts_after runes c.hosts hosts s2 in
    let (key, mode) = validate_ssh_valid runes c.ssh ssh s3 in
    let (credentials, ttl) = validate_auth_valid c.auth auth s4 in
    let (driver, dsn) = validate_state_valid runes c.state state s5 in
    let built : Config = record {
      server = server;
      ssh = ssh;
      hosts = hosts;
      auth = auth;
      state = state;
      docker = fill_docker c.docker;
      open_claw = fill_open_claw c.open_claw;
      enable_events_stream = c.enable_events_stream;
      cache_ttl = if not_positive c.cache_ttl then pos (3 * second) else c.cache_ttl;
    } in
    let done : IsValid runes built = record {
      port = validate_server_valid runes urls c.server server s1;
      some_host = some_host;
      hosts = valid;
      key_path = key;
      host_key_mode = mode;
      credentials = credentials;
      session_ttl = ttl;
      cache_ttl = ttl_given c.cache_ttl 2_999_999_999;
      driver = driver;
      dsn = dsn;
    } in
    subst (IsValid runes) (config_injective built d h5) done
