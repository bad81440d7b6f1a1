-- ===== src/Examples/HostExamples.antt =====
-- backend/internal/host/manager.go at concrete inputs
use podman_manager.Prelude.{true, ◌≡◌, refl, none, some, [], ◌∷◌, ok, err}
use podman_manager.Host.{Transport, HostManager, overview, host_status, name_at}
use podman_manager.Host.Overview.{is_index, IsConsistent, overview_any_order}

abbrev silent : Transport
silent = record {
  host_config = some ("10.0.0.2", "rootless");
  ping = ok "3ms";
  list_containers = ok [];
  host_system_info = err "no /proc";
  close_error = none;
}

abbrev hosts : HostManager
hosts = ("nas", silent) ∷ []

one_finishes : is_index 1 (1 ∷ 0 ∷ []) ≡ true
unfolding is_index
one_finishes = refl

overview_any_order_example :
    (overview (1 ∷ 0 ∷ []) ("nas" ∷ "pi" ∷ []) hosts 1
      ≡ some (host_status (name_at 1 ("nas" ∷ "pi" ∷ [])) hosts))
    × IsConsistent
        (name_at 1 ("nas" ∷ "pi" ∷ []))
        hosts
        (host_status (name_at 1 ("nas" ∷ "pi" ∷ [])) hosts)
overview_any_order_example =
    overview_any_order (1 ∷ 0 ∷ []) ("nas" ∷ "pi" ∷ []) hosts 1 one_finishes
