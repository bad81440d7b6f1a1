-- ===== src/Podman/Cache.antt =====
-- backend/internal/podman/cache.go, with the types of types.go that it copies. Values stand for what
-- pointers, slices and maps point to, and `none` for nil. Each lock of a getter guards one step here:
-- a lookup, and a store of what `fetch` gave; between the two other operations may run. Times are
-- read from one monotonic clock, so that no difference is negative. A float64 is its bit pattern.
pub mod Clones
pub mod Freshness
use podman_manager.Prelude.{
  ℕ, zero, suc, ◌-◌, String, Bool, true, false, not, ◌&&◌, Option, none, some, List, [], ◌∷◌, Map,
  lookup, put, delete, Result, ok, err, ℤ, pos, negsuc, second, ltb, nat_eq, ◌*◌, if◌then◌else◌,
}

abbrev pub Float64 : Type 0
Float64 = ℕ

pub record ContainerStats : Type 0 where
  pub cpu_percent : Float64
  pub memory_usage_bytes : ℕ
  pub memory_limit_bytes : ℕ
  pub memory_percent : Float64
  pub pids : ℤ
  pub network_input_bytes : ℕ
  pub network_output_bytes : ℕ
  pub block_input_bytes : ℕ
  pub block_output_bytes : ℕ

pub record HostSystemInfo : Type 0 where
  pub hostname : String
  pub os : String
  pub kernel : String
  pub uptime_seconds : ℤ
  pub cpu_cores : ℤ
  pub load_1 : Float64
  pub load_5 : Float64
  pub load_15 : Float64
  pub memory_total_bytes : ℕ
  pub memory_used_bytes : ℕ
  pub disk_total_bytes : ℕ
  pub disk_used_bytes : ℕ
  pub disk_free_bytes : ℕ

pub record PortMapping : Type 0 where
  pub host_ip : String
  pub host_port : ℕ
  pub container_port : ℕ
  pub protocol : String

pub record NetworkInfo : Type 0 where
  pub name : String
  pub ip : String
  pub gateway : String
  pub mac : String

pub record MountInfo : Type 0 where
  pub type : String
  pub source : String
  pub destination : String
  pub rw : Bool

-- a slice, which may be nil, and is not nil when it is merely empty
abbrev pub Slice : Type 0 → Type 0
Slice A = Option (List A)

pub record Container : Type 0 where
  pub id : String
  pub name : String
  pub image : String
  pub state : String
  pub status : String
  pub created : ℕ
  pub ports : Slice PortMapping
  pub networks : Slice NetworkInfo
  pub mounts : Slice MountInfo
  pub labels : Option (Map String)
  pub host : String
  pub manager : String
  pub systemd_unit : String
  pub stats : Option ContainerStats

-- `append([]T(nil), s...)`: nil if there is nothing to append
unfoldable pub append_to_nil : {A : Type 0} → Slice A → Slice A
append_to_nil none = none
append_to_nil (some []) = none
append_to_nil (some (x ∷ xs)) = some (x ∷ xs)

unfoldable pub clone_string_map : Option (Map String) → Option (Map String)
clone_string_map none = none
clone_string_map (some values) = some values

unfoldable pub clone_container_stats : Option ContainerStats → Option ContainerStats
clone_container_stats none = none
clone_container_stats (some stat) = some stat

-- the body of the loop of `cloneContainers`
unfoldable pub clone_container : Container → Container
unfolding append_to_nil clone_string_map clone_container_stats
clone_container c = record c {
  labels = clone_string_map c.labels;
  ports = append_to_nil c.ports;
  networks = append_to_nil c.networks;
  mounts = append_to_nil c.mounts;
  stats = clone_container_stats c.stats;
}

unfoldable pub clone_all : List Container → List Container
clone_all [] = []
clone_all (c ∷ cs) = clone_container c ∷ clone_all cs

unfoldable pub clone_containers : Slice Container → Slice Container
unfolding clone_all
clone_containers none = none
clone_containers (some cs) = some (clone_all cs)

abbrev pub Stats : Type 0
Stats = Option (Map (Option ContainerStats))

unfoldable pub clone_stats : Map (Option ContainerStats) → Map (Option ContainerStats)
unfolding clone_container_stats
clone_stats [] = []
clone_stats ((key, stat) ∷ stats) = (key, clone_container_stats stat) ∷ clone_stats stats

unfoldable pub clone_stats_map : Stats → Stats
unfolding clone_stats
clone_stats_map none = none
clone_stats_map (some stats) = some (clone_stats stats)

unfoldable pub clone_system_info : Option HostSystemInfo → Option HostSystemInfo
clone_system_info none = none
clone_system_info (some info) = some info

pub record HostData : Type 0 where
  pub containers : Slice Container
  pub containers_at : ℕ
  pub stats : Stats
  pub stats_at : ℕ
  pub system_info : Option HostSystemInfo
  pub system_info_at : ℕ

abbrev pub new_host_data : HostData
new_host_data = record {
  containers = none;
  containers_at = 0;
  stats = none;
  stats_at = 0;
  system_info = none;
  system_info_at = 0;
}

pub record Cache : Type 0 where
  pub ttl : ℕ
  pub hosts : Map HostData

abbrev pub default_cache_ttl : ℕ
default_cache_ttl = 3 * second

unfoldable pub new_cache : ℤ → Cache
new_cache (pos zero) = record { ttl = default_cache_ttl; hosts = [] }
new_cache (pos (suc n)) = record { ttl = suc n; hosts = [] }
new_cache (negsuc n) = record { ttl = default_cache_ttl; hosts = [] }

-- `!at.IsZero() && now.Sub(at) < c.ttl`
unfoldable pub is_fresh : ℕ → ℕ → ℕ → Bool
is_fresh ttl at now = not (nat_eq at 0) && ltb (now - at) ttl

-- `getOrCreateHost`: the entry, and the cache that holds it
unfoldable pub get_or_create_host : String → Cache → HostData × Cache
get_or_create_host host c = elim (lookup host c.hosts) [
  | some entry ↦ (entry, c)
  | none ↦ (new_host_data, record c { hosts = put host new_host_data c.hosts })
]

-- a write through the pointer that `getOrCreateHost` returned
unfoldable pub update_host : String → (HostData → HostData) → Cache → Cache
unfolding get_or_create_host
update_host host f c =
    let (entry, c') = get_or_create_host host c in record c' { hosts = put host (f entry) c'.hosts }

unfoldable pub cached_containers : String → ℕ → Cache → Option (Slice Container)
cached_containers host now c = elim (lookup host c.hosts) [
  | none ↦ none
  | some entry ↦
      if is_fresh c.ttl entry.containers_at now
      then some (clone_containers entry.containers)
      else none
]

unfoldable pub store_containers : String → Slice Container → ℕ → Cache → Cache
store_containers host containers now c =
    update_host host
      (λ entry. record entry { containers = clone_containers containers; containers_at = now }) c

unfoldable pub cached_stats : String → ℕ → Cache → Option Stats
cached_stats host now c = elim (lookup host c.hosts) [
  | none ↦ none
  | some entry ↦
      if is_fresh c.ttl entry.stats_at now then some (clone_stats_map entry.stats) else none
]

unfoldable pub store_stats : String → Stats → ℕ → Cache → Cache
store_stats host stats now c =
    update_host host (λ entry. record entry { stats = clone_stats_map stats; stats_at = now }) c

unfoldable pub cached_system_info : String → ℕ → Cache → Option (Option HostSystemInfo)
cached_system_info host now c = elim (lookup host c.hosts) [
  | none ↦ none
  | some entry ↦
      if is_fresh c.ttl entry.system_info_at now
      then some (clone_system_info entry.system_info)
      else none
]

unfoldable pub store_system_info : String → Option HostSystemInfo → ℕ → Cache → Cache
store_system_info host info now c =
    update_host host
      (λ entry. record entry { system_info = clone_system_info info; system_info_at = now }) c

-- A whole getter: `now` and `later` are its two readings of the clock, and `E` is what `fetch` fails
-- with.
module _ {E : Type 0} (host : String) (now later : ℕ) where
  unfoldable pub get_containers :
      (String → Result E (Slice Container)) → Cache → Cache × Result E (Slice Container)
  get_containers fetch c = elim (cached_containers host now c) [
    | some containers ↦ (c, ok containers)
    | none ↦ elim (fetch host) [
      | err e ↦ (c, err e)
      | ok containers ↦ (store_containers host containers later c, ok containers)
    ]
  ]

  unfoldable pub get_stats : (String → Result E Stats) → Cache → Cache × Result E Stats
  get_stats fetch c = elim (cached_stats host now c) [
    | some stats ↦ (c, ok stats)
    | none ↦ elim (fetch host) [
      | err e ↦ (c, err e)
      | ok stats ↦ (store_stats host stats later c, ok stats)
    ]
  ]

  unfoldable pub get_system_info :
      (String → Result E (Option HostSystemInfo)) → Cache → Cache × Result E (Option HostSystemInfo)
  get_system_info fetch c = elim (cached_system_info host now c) [
    | some info ↦ (c, ok info)
    | none ↦ elim (fetch host) [
      | err e ↦ (c, err e)
      | ok info ↦ (store_system_info host info later c, ok info)
    ]
  ]

unfoldable pub invalidate : String → Cache → Cache
invalidate host c = record c { hosts = delete host c.hosts }
