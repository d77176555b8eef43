-- ===== src/Core.antt =====
-- crates/gobrowse-core: the rules that the services share.
pub mod Agent
pub mod Context
pub mod Sandbox
pub mod Policy
mod Tests
