-- ===== src/Agent.antt =====
-- backend/internal/agent: the manager's side of the connections to its agents.
pub mod Registry
pub mod Messages
pub mod Server
