-- ===== src/Protocol/Packet.antt =====
-- protocol/src/packet.rs: the packets, `encode`, `decode`, `id` and `request_id`.
-- A u64, u32 or u8 is a number; IsWire states the range of each field.
mod Types
mod Encode
mod Decode
unfoldable pub use Types.*
unfoldable pub use Encode.*
unfoldable pub use Decode.*
