-- ===== src/Auth.antt =====
-- backend/internal/auth: the users, their roles and passwords, and their sessions, in an SQLite
-- database.
pub mod Database
pub mod Users
pub mod Sessions
pub mod Errors
pub mod Runs
pub mod Races
