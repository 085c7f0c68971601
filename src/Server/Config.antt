-- ===== src/Server/Config.antt =====
-- server/src/config.rs: the constants that the handlers test.
use voiceapp.Base.{ℕ}

abbrev pub max_username_len : ℕ
max_username_len = 32
