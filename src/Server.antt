-- ===== src/Server.antt =====
-- internal/server: the SSH gateway.
pub mod Lifecycle
pub mod Gateway
pub mod Session
