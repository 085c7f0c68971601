-- ===== src/Server/User.antt =====
-- server/src/management/user.rs
use voiceapp.Base.{ℕ, Bool, Option, List}

pub record User : Type 0 where
  pub id : ℕ
  pub username : Option (List ℕ)
  pub in_voice : Bool
  pub is_muted : Bool
  pub token : ℕ
