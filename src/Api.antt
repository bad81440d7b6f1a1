-- ===== src/Api.antt =====
-- backend/internal/api: the HTTP handlers.
pub mod Access
pub mod Checks
pub mod Users
