-- ===== src/Podman.antt =====
-- backend/internal/podman: what the manager knows of the containers on a host.
pub mod Cache
