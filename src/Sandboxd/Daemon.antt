-- ===== src/Sandboxd/Daemon.antt =====
-- crates/gobrowse-sandboxd/src/daemon.rs: the requests to the sandbox daemon.
pub mod Errors
pub mod Operations
pub mod Admission
pub mod Serving
pub mod Steps
pub mod Once
pub mod Durable
pub mod Progress
pub mod Workspaces
pub mod Dispatch
mod Tests
