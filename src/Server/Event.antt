-- ===== src/Server/Event.antt =====
-- server/src/event.rs
use voiceapp.Base.{ℕ}

pub data Event : Type 0 where
  user_connected : (id token : ℕ) → Event
  voice_joined : (id : ℕ) → Event
  voice_left : (id : ℕ) → Event
  user_disconnected : (id : ℕ) → Event
