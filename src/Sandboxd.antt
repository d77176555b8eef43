-- ===== src/Sandboxd.antt =====
-- crates/gobrowse-sandboxd: the sandbox daemon.
pub mod Replay
pub mod Journal
pub mod Session
pub mod Registry
pub mod Daemon
mod Tests
