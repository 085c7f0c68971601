-- ===== src/Sdk.antt =====
-- The client library: sdk/src, its network part.
pub mod Error
pub mod Tcp
pub mod Udp
pub mod Api
pub mod Events
pub mod Voice
