-- ===== src/Connect/Containers.antt =====
-- `listContainers` of agent/internal/connect.go, and the conversions of what Podman lists.
pub mod Merge
use Prim.Native.Nat.{◌%◌, ◌^◌}
use Prim.Native.String.{◌++◌ as join}
use podman_manager.Prelude.{
  ℕ, String, Bool, true, false, not, ◌||◌, Option, none, some, List, [], ◌∷◌, ◌++◌, Map, Result, ok,
  err, ◌==◌, if◌then◌else◌, contains, trim_prefix, strip, ◌>>=◌, ℤ, pos, negsuc, ltb, ◌-◌,
}
use podman_manager.Podman.Cache.{MountInfo}
use podman_manager.Connect.Quadlet.{QuadletContainer}

-- a mapping of ports, as Podman lists it and as it is sent
pub record Port : Type 0 where
  pub host_ip : String
  pub host_port : ℤ
  pub container_port : ℤ
  pub protocol : String

pub record Mount : Type 0 where
  pub type : String
  pub source : String
  pub destination : String
  pub read_only : Bool

-- what Podman lists
pub record Listed : Type 0 where
  pub id : String
  pub names : List String
  pub image : String
  pub state : String
  pub status : String
  pub ports : List Port
  pub mounts : List Mount
  pub labels : Map String

-- `agentpb.Container`, without the fields that are never set here
pub record Sent : Type 0 where
  pub id : String
  pub name : String
  pub image : String
  pub state : String
  pub status : String
  pub ports : List Port
  pub mounts : List MountInfo
  pub labels : Map String
  pub manager : String
  pub systemd_unit : String

unfoldable pub first_container_name : List String → String
unfolding trim_prefix
first_container_name [] = ""
first_container_name (n ∷ ns) = trim_prefix n "/"

-- `int32(z)`, which wraps around
unfoldable pub to_int32 : ℤ → ℤ
to_int32 (pos n) = let r = n % 2 ^ 32 in if ltb r (2 ^ 31) then pos r else negsuc (2 ^ 32 - 1 - r)
to_int32 (negsuc n) =
    let r = n % 2 ^ 32 in if ltb r (2 ^ 31) then negsuc r else pos (2 ^ 32 - 1 - r)

unfoldable pub port_mappings : List Port → List Port
unfolding to_int32
port_mappings [] = []
port_mappings (p ∷ ps) =
    record p { host_port = to_int32 p.host_port; container_port = to_int32 p.container_port }
    ∷ port_mappings ps

unfoldable pub mounts_sent : List Mount → List MountInfo
mounts_sent [] = []
mounts_sent (m ∷ ms) =
    record { type = m.type; source = m.source; destination = m.destination; rw = not m.read_only }
    ∷ mounts_sent ms

unfoldable pub container_sent : Listed → Sent
unfolding first_container_name port_mappings mounts_sent
container_sent c = record {
  id = c.id;
  name = first_container_name c.names;
  image = c.image;
  state = c.state;
  status = c.status;
  ports = port_mappings c.ports;
  mounts = mounts_sent c.mounts;
  labels = c.labels;
  manager = "";
  systemd_unit = "";
}

unfoldable pub quadlet_sent : QuadletContainer → Sent
quadlet_sent q = record {
  id = join "quadlet-" q.name;
  name = if q.container_name == "" then q.name else q.container_name;
  image = q.image;
  state = "exited";
  status = "Stopped (Quadlet)";
  ports = [];
  mounts = [];
  labels = [];
  manager = "quadlet";
  systemd_unit = q.unit;
}

unfoldable pub containers_sent : List Listed → List Sent
unfolding container_sent
containers_sent [] = []
containers_sent (c ∷ cs) = container_sent c ∷ containers_sent cs

-- the keys of `seen`
unfoldable pub seen_names : List Sent → List String
seen_names [] = []
seen_names (c ∷ cs) = let rest = seen_names cs in if c.name == "" then rest else c.name ∷ rest

-- the loop over the quadlets
unfoldable pub stopped_quadlets : List String → List QuadletContainer → List Sent
unfolding quadlet_sent
stopped_quadlets seen [] = []
stopped_quadlets seen (q ∷ qs) =
    let rest = stopped_quadlets seen qs in
    if q.state == "active" || contains q.container_name seen then rest else quadlet_sent q ∷ rest

-- Nothing is a failure of the discovery, which is only logged
unfoldable pub list_containers :
    Result String (List Listed) → Option (List QuadletContainer) → Result String (List Sent)
unfolding containers_sent seen_names stopped_quadlets
list_containers listed quadlets = listed >>= λ cs.
    let sent = containers_sent cs in
    elim quadlets [ none ↦ ok sent | some qs ↦ ok (sent ++ stopped_quadlets (seen_names sent) qs) ]
