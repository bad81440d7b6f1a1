-- ===== src/Connect/Containers/Merge.antt =====
-- What `listContainers` of agent/internal/connect.go adds to what Podman lists.
use podman_manager.Prelude.{
  String, Bool, true, not, ◌&&◌, some, List, [], ◌∷◌, ◌++◌, ok, ◌==◌, contains, ◌≡◌, refl, arith,
}
use podman_manager.Connect.Quadlet.{QuadletContainer}
use podman_manager.Connect.Containers.{
  Listed, Sent, quadlet_sent, containers_sent, seen_names, stopped_quadlets, list_containers,
}

-- the quadlets have a name for their container
unfoldable pub are_named : List QuadletContainer → Bool
are_named [] = true
are_named (q ∷ qs) = not (q.container_name == "") && are_named qs

-- the containers are stopped quadlets, with none of the names
unfoldable pub are_apart_from : List String → List Sent → Bool
are_apart_from names [] = true
are_apart_from names (c ∷ cs) =
    not (contains c.name names)
    && c.manager == "quadlet"
    && c.state == "exited"
    && are_apart_from names cs

stopped_quadlets_apart :
    (seen : List String) (qs : List QuadletContainer)
    → are_named qs ≡ true
    → are_apart_from seen (stopped_quadlets seen qs) ≡ true
unfolding are_named are_apart_from stopped_quadlets quadlet_sent
stopped_quadlets_apart seen [] h = refl
stopped_quadlets_apart seen (q ∷ qs) h = ground (arith, stopped_quadlets_apart seen qs)

-- Where Podman lists containers and the quadlets are found, each with a name for its container, the
-- list has what Podman lists, in its order, and then stopped containers of quadlets, none of which has
-- the name of a container before it that Podman lists.
pub list_containers_apart :
    (cs : List Listed) (qs : List QuadletContainer)
    → are_named qs ≡ true
    → (extra : List Sent) × (list_containers (ok cs) (some qs) ≡ ok (containers_sent cs ++ extra))
      × (are_apart_from (seen_names (containers_sent cs)) extra ≡ true)
unfolding list_containers
list_containers_apart cs qs h =
    let seen = seen_names (containers_sent cs) in
    (stopped_quadlets seen qs, refl, stopped_quadlets_apart seen qs h)
