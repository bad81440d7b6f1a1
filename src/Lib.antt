-- ===== src/Lib.antt =====
-- Homelab Control: a Go server that manages Podman hosts, and the agents that run on these hosts.
--
-- The parts that are modelled, and how they interact:
--
--   Enroll (backend/internal/enroll/store.go) keeps the tokens that enrol an agent once, and the
--   credentials of the agents, in memory and in a file. `Store` is the state; CreateToken,
--   ConsumeToken, RegisterCredential and the other methods have the same names in snake_case.
--   Enroll/Runs and Enroll/Revocation are about any run of these methods, Enroll/Credentials about the
--   file and restarts. Enroll/Handler (backend/internal/enroll/handler.go) has the HTTP handlers.
--
--   Agent/Registry (backend/internal/agent/registry.go) knows which agents are connected.
--
--   Agent/Messages (agent/proto/agent.proto, and the switches of backend/internal/agent/server.go) has
--   the messages and their conversions.
--
--   Agent/Server (backend/internal/agent/server.go) enrols agents by the store, lets their streams in
--   by its credentials, enters them in the registry, and routes what they send to the command or the
--   callback that waits for it. Each lock of the source guards one step of the model. SendCommand is
--   two steps, begin_command and end_command, and Enroll is check_enroll and commit_enroll, so that
--   other operations may come between them.
--
--   Auth/Database, Auth/Users and Auth/Sessions (backend/internal/auth/store.go, users.go and
--   sessions.go) keep the users and their sessions in SQLite. The engine, bcrypt and the Unicode tables
--   are a parameter, `Driver`; a statement that does not fail has the meaning that SQL gives it.
--   Auth/Runs is about any run of the operations, Auth/Races about two of them that interleave.
--
--   Api/Access (backend/internal/api/auth.go, rbac.go, and the wrappers of router.go) decides which
--   request reaches a handler by the session that its cookie names; Api/Users and Api/Checks
--   (backend/internal/api/users.go) are the handlers of users and passwords, on top of Auth.
--
--   Control (backend/internal/control/store.go and homepage_import.go) keeps the links of the dashboard
--   in a database: Control/Slug and Control/Mutation check and complete what a request asks for,
--   Control/Tables says what the SQL statements do, Control/Links has the operations, Control/Listing
--   the groups of links, Control/Homepage and Control/Import the import of YAML documents. The engine,
--   net/url and the Unicode table are a parameter, `Environment`.
--
--   Connect (agent/internal/connect.go and quadlet.go) is the agent: Connect/Manager has the pending
--   requests and the streams, Connect/Commands what the agent answers to the commands that Agent/Messages
--   says the manager sends, Connect/Requests the request IDs, Connect/Logs the stream of a log,
--   Connect/Loops the loops that receive, send heartbeats and connect again, Connect/Enrolment the
--   exchange of a token for credentials, Connect/Containers and Connect/Quadlet the list of containers
--   and the units that define them, Connect/Settings (agent/internal/config/config.go) the check of the
--   settings. Podman, files and parsers of JSON are parameters.
--
--   Config (backend/internal/config/config.go) checks and completes the configuration: Config/Hosts the
--   hosts, Config/Origins the origins that a browser may come from, and the policy of
--   backend/internal/api/origin.go. Config/Lower is strings.ToLower.
--
--   Host (backend/internal/host/manager.go) asks the transports of the hosts for an overview.
--
--   Podman/Cache (backend/internal/podman/cache.go and the types of types.go) keeps what the manager
--   has fetched from a host for a while.
--
-- Conventions. Go's maps are association lists; what `range` visits is a list of keys that the caller
-- hands over, since Go leaves the order open. Times are nanoseconds since Go's zero time, read by the
-- caller; what the source draws at random is an argument, and nothing if the source of random numbers
-- fails. A nil pointer is `none`. Errors are values. Loops over lists are structural recursion, and so
-- no fuel is needed; the loop over a stream runs on the list of what the stream delivers, and has no
-- result while it still waits.
--
-- Not modelled: goroutines and locks beyond their steps; logging; the JSON texts; the gRPC and HTTP
-- libraries, SQLite, bcrypt, YAML, the sort of the standard library and the file system, whose
-- outcomes are arguments; ListUsers; the Podman clients, the SSH pool, the loading of configurations,
-- compose stacks, and the web application.
--
-- Each module Examples/… applies the theorems to concrete inputs.
pub mod Prelude
pub mod Enroll
pub mod Agent
pub mod Auth
pub mod Podman
pub mod Api
pub mod Control
pub mod Connect
pub mod Config
pub mod Host
mod Examples
