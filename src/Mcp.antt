-- ===== src/Mcp.antt =====
-- crates/gobrowse-core/src/mcp: the Model Context Protocol client.
pub mod Era
pub mod Wire
pub mod Capabilities
pub mod Pending
pub mod Lifecycle
mod Tests
