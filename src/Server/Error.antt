-- ===== src/Server/Error.antt =====
-- server/src/error.rs. What an input or output error carries is the operating system's.
use voiceapp.Base.{ℕ}
use voiceapp.Protocol.Error.{ProtocolError}

pub data ServerError : Type 0 where
  io : ServerError
  protocol : ProtocolError → ServerError
  user_not_found : ℕ → ServerError
