-- ===== src/Lib.antt =====
-- A verification library for gobrowseos, a self-hosted agent server with a daemon that runs sandboxed
-- terminals. It models parts of the crates in crates/.
--
-- The sandbox daemon (crates/gobrowse-sandboxd/src) takes requests that change terminals. Its replay
-- cache (replay.rs: Sandboxd/Replay) answers a retried request with the first response while the
-- daemon runs; its journal (journal.rs: Sandboxd/Journal) is the durable record of terminals, of
-- their output, of the inputs written to them and of the requests. The tables are in Journal/Tables,
-- the operations on terminals and restarts in Journal/Terminals, on output in Journal/Output, on
-- inputs in Journal/Inputs and on requests in Journal/Mutations. A running terminal is a session with a
-- lifecycle (runtime.rs: Sandboxd/Session) that a registry with limits holds (runtime.rs:
-- Sandboxd/Registry).
--
-- The daemon itself (daemon.rs: Sandboxd/Daemon) reads a line of a connection and checks it
-- (Daemon/Admission), asks the replay cache and the journal and records the response in both
-- (Daemon/Serving, and Daemon/Steps for many tasks, cancellation and restarts), and runs the
-- operation (Daemon/Dispatch), pausing a workspace while its files change (Daemon/Workspaces). The
-- trait SandboxRuntime and the struct Filesystem are records of operations on a world of any type.
--
-- The client of the Model Context Protocol (crates/gobrowse-core/src/mcp.rs and mcp/) keeps a session
-- per server: Mcp/Era and Mcp/Capabilities are what is negotiated, Mcp/Wire the identifiers, and
-- Mcp/Pending and Mcp/Lifecycle the session of mcp/lifecycle.rs.
--
-- Core holds rules of crates/gobrowse-core/src: the states of a run and the token budget (agent.rs:
-- Core/Agent), the checks of sandbox requests (sandbox.rs: Core/Sandbox), the tool policy
-- (policy.rs: Core/Policy), what enters the context of a run (context.rs: Core/Context). Of
-- crates/gobrowse-server/src, Server/RateLimiter is rate_limiter.rs and Server/Authorize is
-- authorize.rs: the matrix, the policies, the cache and the audited decisions; Authorize/Decide has
-- the two steps that a call takes under the lock of the cache, and Authorize/Overlap runs of the
-- steps of several calls.
--
-- A definition has the name of the function that it models. A method that changes its object takes
-- the state and returns it with the result. Identifiers and fingerprints that are only compared are
-- numbers; strings that are taken apart are lists of bytes; maps are association lists. Machine
-- integers wrap, saturate or are checked as the code says, with the bounds in Prelude/Words. Code that
-- holds a lock from end to end is one step, and several tasks are a sequence of steps.
--
-- Loops are structural recursion. The one that has fuel, chunks_of in Journal/Output, is given the
-- number of bytes, and each round takes at least one byte.
--
-- Not modelled: processes, sockets, files and the user interface; SQLite, of which a table is a list
-- of rows with its constraints, and its I/O faults; serde_json and std::path, which are parameters;
-- the server's HTTP handlers. Timestamps that are written and never read are left out.
pub mod Prelude
pub mod Sandboxd
pub mod Mcp
pub mod Server
pub mod Core
