-- ===== src/Host.antt =====
-- backend/internal/host/manager.go. A transport is what its calls give, and the order in which the
-- goroutines of `Overview` finish is an argument, as is the order in which `range` visits a map.
pub mod Overview
use Prim.Native.String.{◌++◌ as join}
use podman_manager.Prelude.{
  ℕ, suc, String, Bool, true, false, Option, none, some, List, [], ◌∷◌, Map, lookup, put, keys,
  Result, ok, err, ◌==◌, nat_eq, if◌then◌else◌,
}
use podman_manager.Podman.Cache.{Container, HostSystemInfo}

-- What the calls of a transport give: the address and the mode of `HostConfig`, where it has that
-- method, the latency as it is shown, the containers, the host, and the error of `Close`.
pub record Transport : Type 0 where
  pub host_config : Option (String × String)
  pub ping : Result String String
  pub list_containers : Result String (List Container)
  pub host_system_info : Result String HostSystemInfo
  pub close_error : Option String

pub record ContainerCount : Type 0 where
  pub total : ℕ
  pub running : ℕ
  pub stopped : ℕ

pub record HostStatus : Type 0 where
  pub name : String
  pub address : String
  pub mode : String
  pub status : String
  pub error : String
  pub latency : String
  pub container_count : ContainerCount
  pub containers : List Container
  pub system : Option HostSystemInfo

abbrev pub HostManager : Type 0
HostManager = Map Transport

unfoldable pub register_transport : String → Transport → HostManager → HostManager
unfolding put
register_transport name t m = put name t m

unfoldable pub get_transport : String → HostManager → Option Transport
unfolding lookup
get_transport name m = lookup name m

unfoldable pub total_of : List Container → ℕ
total_of [] = 0
total_of (c ∷ cs) = suc (total_of cs)

-- the loop over the containers
unfoldable pub tally_containers : List Container → ContainerCount → ContainerCount
tally_containers [] n = n
tally_containers (c ∷ cs) n =
    if c.state == "running"
    then tally_containers cs (record n { running = suc n.running })
    else tally_containers cs (record n { stopped = suc n.stopped })

abbrev pub no_containers : ContainerCount
no_containers = record { total = 0; running = 0; stopped = 0 }

unfoldable pub named_status : String → Transport → HostStatus
named_status name t = record {
  name = name;
  address = elim t.host_config [ none ↦ "" | some (address, mode) ↦ address ];
  mode = elim t.host_config [ none ↦ "" | some (address, mode) ↦ mode ];
  status = "";
  error = "";
  latency = "";
  container_count = no_containers;
  containers = [];
  system = none;
}

unfoldable pub unknown_status : String → HostStatus
unknown_status name = record {
  name = name;
  address = "";
  mode = "";
  status = "offline";
  error = join "unknown host: " name;
  latency = "";
  container_count = no_containers;
  containers = [];
  system = none;
}

-- `hostStatus` of a transport that is there
unfoldable pub status_of : String → Transport → HostStatus
unfolding named_status tally_containers total_of
status_of name t =
    let hs = named_status name t in
    elim t.ping [
      | err e ↦ record hs { status = "offline"; error = e }
      | ok latency ↦
          let hs = record hs { latency = latency } in
          elim t.list_containers [
            | err e ↦ record hs { status = "error"; error = e }
            | ok cs ↦ record hs {
              status = "online";
              system = elim t.host_system_info [ ok info ↦ some info | err e ↦ none ];
              error = elim t.host_system_info [ ok info ↦ "" | err e ↦ join "system info: " e ];
              containers = cs;
              container_count = tally_containers cs (record no_containers { total = total_of cs });
            }
          ]
    ]

unfoldable pub host_status : String → HostManager → HostStatus
unfolding get_transport status_of unknown_status
host_status name m = elim (get_transport name m) [
  | none ↦ unknown_status name
  | some t ↦ status_of name t
]

-- `resp.Hosts`, by index; `none` for the zero value that `make` puts there
abbrev pub Slots : Type 0
Slots = ℕ → Option HostStatus

unfoldable pub write_slot : ℕ → HostStatus → Slots → Slots
write_slot i v slots j = if nat_eq j i then some v else slots j

unfoldable pub name_at : ℕ → List String → String
name_at i [] = ""
name_at ℕ.zero (n ∷ ns) = n
name_at (suc i) (n ∷ ns) = name_at i ns

-- the loop that receives the results, in the order in which the goroutines finish
unfoldable pub receive_results : List ℕ → List String → HostManager → Slots → Slots
unfolding write_slot host_status name_at
receive_results [] names m slots = slots
receive_results (i ∷ order) names m slots =
    receive_results order names m (write_slot i (host_status (name_at i names) m) slots)

-- `Overview`, for the names in the order of `range`
unfoldable pub overview : List ℕ → List String → HostManager → Slots
unfolding receive_results
overview order names m = receive_results order names m (λ i. none)

-- the first error of the transports, in the order of `range`
unfoldable pub first_error : List String → HostManager → Option String
unfolding lookup
first_error [] m = none
first_error (name ∷ names) m =
    let rest = first_error names m in
    elim (lookup name m) [
      | none ↦ rest
      | some t ↦ elim t.close_error [ none ↦ rest | some e ↦ some e ]
    ]

-- `Close`
unfoldable pub close_all : List String → HostManager → Option String × HostManager
unfolding first_error
close_all names m = (first_error names m, [])
