-- ===== src/Server.antt =====
-- crates/gobrowse-server: the web server.
pub mod RateLimiter
pub mod Authorize
mod Tests
