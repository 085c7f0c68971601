-- ===== src/Server/Session.antt =====
-- server/src/voice/session.rs
use voiceapp.Base.{ℕ, Bool, Option}

pub record VoiceSession : Type 0 where
  pub token : ℕ
  pub in_voice : Bool
  pub udp_address : Option ℕ
