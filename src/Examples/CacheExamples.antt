-- ===== src/Examples/CacheExamples.antt =====
-- backend/internal/podman/cache.go at concrete inputs
use podman_manager.Prelude.{
  ◌≡◌, refl, String, none, some, [], ◌∷◌, Result, ok, err, ltb, pos, if◌then◌else◌, lookup,
}
use podman_manager.Podman.Cache.{
  Slice, Container, Cache, new_cache, append_to_nil, clone_container, clone_containers,
  cached_containers, get_containers,
}
use podman_manager.Podman.Cache.Freshness.{get_containers_again}

abbrev web : Container
web = record {
  id = "c1";
  name = "web";
  image = "nginx";
  state = "running";
  status = "Up";
  created = 4;
  ports = none;
  networks = some [];
  mounts = none;
  labels = none;
  host = "nas";
  manager = "podman";
  systemd_unit = "";
  stats = none;
}

abbrev xs : Slice Container
xs = some (web ∷ [])

abbrev c : Cache
c = new_cache (pos 100)

abbrev fetch : String → Result String (Slice Container)
fetch host = ok xs

abbrev fails : String → Result String (Slice Container)
fails host = err "unreachable"

-- The copy of an empty slice is nil.
lost_networks_test : (clone_container web).networks ≡ none
unfolding clone_container append_to_nil
lost_networks_test = refl

abbrev filled : Cache
filled = (get_containers "nas" 5 10 fetch c).0

get_containers_again_example :
    (get_containers "nas" 109 109 fails filled).1
    ≡ (if ltb 99 100 then ok (clone_containers xs) else fails "nas")
unfolding cached_containers lookup new_cache
get_containers_again_example =
    get_containers_again "nas" 5 10 109 109 fetch fails xs c refl refl refl
