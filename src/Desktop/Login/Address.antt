-- ===== src/Desktop/Login/Address.antt =====
-- The address that the program keeps after a login.
use voiceapp.Base.{
  ℕ, ◌≡◌, ◌≢◌, refl, ap, ◌⊎◌, inl, inr, ◌==◌, Bool, true, false, Bool-cases, [], ◌∷◌, ◌++◌, All, ok,
  arith,
}
use voiceapp.Desktop.Message
use voiceapp.Desktop.Message.{String, VoiceCommandResult}
use voiceapp.Desktop.Config.{ServerConfig, AppConfig, Env, ConfigState}
use voiceapp.Desktop.Config
use voiceapp.Desktop.Login.{
  colon, management_port, voice_port, connect_to, before_colon, Client, handle_voice_command,
}

before_colon-port :
    (address rest : String)
    → All (λ b. b ≢ colon) address
    → before_colon (address ++ (colon ∷ rest)) ≡ address
unfolding before_colon
before_colon-port [] rest h = refl
before_colon-port (b ∷ bs) rest h = rw (differs b h.0, before_colon-port bs rest h.1) refl
  where
    differs : (b : ℕ) → b ≢ colon → (b == colon) ≡ false
    differs b h = ground (arith, h)

-- If the client connects to an address without a colon, the program keeps exactly that
-- address and the user's name in its configuration: after the message about the connection,
-- whichever configuration there was before, they are what the next automatic login uses.
pub connected-config :
    (env : Env) (client : Client) (address username : String) (user_id : ℕ) (writable : Bool)
    (s : ConfigState env)
    → All (λ b. b ≢ colon) address
    → client.connect (address ++ management_port) (address ++ voice_port) username ≡ ok user_id
    → (Config.update env
        (Message.voice_command_result (handle_voice_command client (connect_to address username)))
        writable
        s).config.server
      ≡ record { address = address; username = username }
unfolding handle_voice_command Config.update Config.write_config
connected-config env client address username user_id writable s plain e =
    rw (e, handle_voice_command, before_colon-port address port plain)
      (wrote (Bool-cases (env.same s.config next)))
  where
    port : String
    port = 57 ∷ 48 ∷ 48 ∷ 49 ∷ []

    next : Config.Config env
    next = Config.set_server env address username s.config

    wrote :
        (env.same s.config next ≡ true) ⊎ (env.same s.config next ≡ false)
        → (Config.write_config env (Config.set_server env address username) s).config.server
          ≡ record { address = address; username = username }
    wrote (inl same) =
        rw (same, Config.write_config)
          (ap (λ (c : Config.Config env). c.server) ((env.same_iff s.config next).0 same))
    wrote (inr differs) = rw (differs, Config.write_config) refl
