-- ===== src/Connect.antt =====
-- agent/internal: the program on the hosts that runs what the manager asks for.
pub mod Manager
pub mod Requests
pub mod Logs
pub mod Commands
pub mod Enrolment
pub mod Quadlet
pub mod Containers
pub mod Loops
pub mod Events
pub mod Settings
