-- ===== src/Protocol/Error.antt =====
-- protocol/src/error.rs. The texts that `Display` prints are not modelled.
use voiceapp.Base.{ℕ}

pub data ProtocolError : Type 0 where
  packet_too_short : ℕ → ℕ → ProtocolError
  unknown_packet_id : ℕ → ProtocolError
  invalid_utf8 : ProtocolError
  incomplete_payload : ℕ → ℕ → ProtocolError
