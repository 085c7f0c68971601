-- ===== src/Protocol.antt =====
-- The crate protocol.
pub mod Bytes
pub mod Utf8
pub mod Error
pub mod Reader
pub mod Writer
pub mod PacketId
pub mod Packet
pub mod Layout
pub mod Sizes
pub mod Encoding
pub mod RoundTrip
pub mod Framing
pub mod Soundness
pub mod Stream
