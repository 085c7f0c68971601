-- ===== src/Server.antt =====
-- The server: server/src.
pub mod Error
pub mod User
pub mod Event
pub mod Broadcast
pub mod Config
pub mod World
pub mod Handler
pub mod Management
pub mod Session
pub mod Relay
