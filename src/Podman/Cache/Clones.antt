-- ===== src/Podman/Cache/Clones.antt =====
-- What the copies keep.
use podman_manager.Prelude.{◌≡◌, refl, ap, Option, none, some, List, [], ◌∷◌, Map, String}
use podman_manager.Podman.Cache.{
  Slice, Container, ContainerStats, append_to_nil, clone_string_map, clone_container_stats,
  clone_container, clone_all, clone_containers,
}

append_to_nil_twice : {A : Type 0} (s : Slice A) → append_to_nil (append_to_nil s) ≡ append_to_nil s
unfolding append_to_nil
append_to_nil_twice none = refl
append_to_nil_twice (some []) = refl
append_to_nil_twice (some (x ∷ xs)) = refl

clone_string_map_lem : (m : Option (Map String)) → clone_string_map m ≡ m
unfolding clone_string_map
clone_string_map_lem none = refl
clone_string_map_lem (some m) = refl

clone_container_stats_lem : (s : Option ContainerStats) → clone_container_stats s ≡ s
unfolding clone_container_stats
clone_container_stats_lem none = refl
clone_container_stats_lem (some s) = refl

clone_container_twice : (c : Container) → clone_container (clone_container c) ≡ clone_container c
unfolding clone_container
clone_container_twice c =
    rw
      (
        append_to_nil_twice c.ports,
        append_to_nil_twice c.networks,
        append_to_nil_twice c.mounts,
        clone_string_map_lem (clone_string_map c.labels),
        clone_container_stats_lem (clone_container_stats c.stats),
      )
      refl

clone_all_twice : (cs : List Container) → clone_all (clone_all cs) ≡ clone_all cs
unfolding clone_all
clone_all_twice [] = refl
clone_all_twice (c ∷ cs) = rw (clone_container_twice c, clone_all_twice cs) refl

-- A copy of a copy is the copy.
pub clone_containers_twice :
    (s : Slice Container) → clone_containers (clone_containers s) ≡ clone_containers s
unfolding clone_containers
clone_containers_twice none = refl
clone_containers_twice (some cs) = ap some (clone_all_twice cs)
