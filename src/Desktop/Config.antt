-- ===== src/Desktop/Config.antt =====
-- desktop/src/config.rs and desktop/src/state/config.rs: the configuration, the flag that says that it
-- has changed, and the file. The devices, the file system and the format of the file are parameters.
pub mod Saved
use voiceapp.Base.{
  ℕ, ◌≡◌, ◌↔◌, ◌==◌, ◌&&◌, not, Bool, true, false, if◌then◌else◌, Option, none, some, List, [], ◌∷◌,
  length, Result, ok, err,
}
use voiceapp.Desktop.Message
use voiceapp.Desktop.Message.{
  String, SettingsPageMessage, RoomPageMessage, VoiceCommandResult, Task, no_task,
}

pub record ServerConfig : Type 0 where
  pub address : String
  pub username : String

pub record AudioDevice : Type 0 where
  pub device_id : String
  pub sample_rate : ℕ
  pub sample_format : String
  pub channels : ℕ
  pub volume : ℕ

-- The volumes of the users are a map, with an insertion of its own.
pub record AudioConfig (Volumes : Type 0) : Type 0 where
  pub input_device : AudioDevice
  pub output_device : AudioDevice
  pub input_sensitivity : ℕ
  pub users_volumes : Volumes
  pub notification_volume : ℕ

pub record AppConfig (Volumes : Type 0) : Type 0 where
  pub server : ServerConfig
  pub audio : AudioConfig Volumes

unfoldable pub is_credentials_filled : ServerConfig → Bool
is_credentials_filled s = not (length s.address == 0) && not (length s.username == 0)

-- What the code uses of the world around it: the devices with their best configurations (rate, format
-- and channels), the map of volumes, the derived equality of configurations, which decides whether
-- they are the same, and the text of a configuration.
pub record Env : Type 1 where
  pub Volumes : Type 0
  pub insert : Volumes → ℕ → ℕ → Volumes
  pub Device : Type 0
  pub find_device_by_id : String → Option Device
  pub find_best_input_stream_config : Device → Option (ℕ × String × ℕ)
  pub find_best_output_stream_config : Device → Option (ℕ × String × ℕ)
  pub same : AppConfig Volumes → AppConfig Volumes → Bool
  pub same_iff : (c d : AppConfig Volumes) → (same c d ≡ true) ↔ (c ≡ d)
  pub to_string_pretty : AppConfig Volumes → Option String
  pub from_str : String → Option (AppConfig Volumes)
  pub default : AppConfig Volumes

module _ (env : Env) where
  abbrev pub Config : Type 0
  Config = AppConfig env.Volumes

  -- The configuration that all parts read, the flag, and the file with what it holds.
  pub record ConfigState : Type 0 where
    pub config : Config
    pub config_dirty : Bool
    pub file : Option String

  -- `AppConfig::save`; the write may fail.
  unfoldable pub save : Bool → Config → Option String → Result (Unit {0}) (Unit {0}) × Option String
  save writable config file = elim (env.to_string_pretty config) [
    | none ↦ (err tt, file)
    | some contents ↦ if writable then (ok tt, some contents) else (err tt, file)
  ]

  unfoldable pub create_default_and_save : Bool → Option String → Option Config × Option String
  create_default_and_save writable file =
      let saved = save writable env.default file in
      elim saved.0 [ ok _ ↦ (some env.default, saved.1) | err _ ↦ (none, saved.1) ]

  -- `AppConfig::load`, of a file that can be read when it is there.
  unfoldable pub load : Bool → Option String → Option Config × Option String
  load writable none = create_default_and_save writable none
  load writable (some contents) = elim (env.from_str contents) [
    | some config ↦ (some config, some contents)
    | none ↦ create_default_and_save writable (some contents)
  ]

  abbrev pub new : Config → Option String → ConfigState
  new config file = record { config = config; config_dirty = false; file = file }

  unfoldable pub write_config : (Config → Config) → ConfigState → ConfigState
  write_config updater s =
      let new_config = updater s.config in
      if env.same s.config new_config
      then s
      else record s { config = new_config; config_dirty = true }

  unfoldable pub save_config_if_dirty : Bool → ConfigState → ConfigState
  save_config_if_dirty writable s =
      let saved = save writable s.config s.file in
      if s.config_dirty
      then elim saved.0 [
        | ok _ ↦ record s { config_dirty = false; file = saved.1 }
        | err _ ↦ record s { config_dirty = true; file = saved.1 }
      ]
      else record s { config_dirty = false }

  abbrev pub set_server : String → String → Config → Config
  set_server address username c = record c {
    server = record { address = address; username = username };
  }

  abbrev pub set_audio : (AudioConfig env.Volumes → AudioConfig env.Volumes) → Config → Config
  set_audio f c = record c { audio = f c.audio }

  abbrev pub set_device : String → ℕ × String × ℕ → AudioDevice → AudioDevice
  set_device device_id best d = record d {
    device_id = device_id;
    sample_rate = best.0;
    sample_format = best.1;
    channels = best.2;
  }

  unfoldable pub select_input_device : String → ConfigState → ConfigState
  select_input_device device_id s = elim (env.find_device_by_id device_id) [
    | none ↦ s
    | some device ↦ elim (env.find_best_input_stream_config device) [
      | none ↦ s
      | some best ↦
          write_config
            (set_audio (λ a. record a { input_device = set_device device_id best a.input_device }))
            s
    ]
  ]

  unfoldable pub select_output_device : String → ConfigState → ConfigState
  select_output_device device_id s = elim (env.find_device_by_id device_id) [
    | none ↦ s
    | some device ↦ elim (env.find_best_output_stream_config device) [
      | none ↦ s
      | some best ↦
          write_config
            (set_audio
              (λ a. record a { output_device = set_device device_id best a.output_device }))
            s
    ]
  ]

  unfoldable pub update_settings : SettingsPageMessage → ConfigState → ConfigState
  update_settings (SettingsPageMessage.select_input_device device_id) s =
      select_input_device device_id s
  update_settings (SettingsPageMessage.select_output_device device_id) s =
      select_output_device device_id s
  update_settings (SettingsPageMessage.input_volume_changed v) s =
      write_config
        (set_audio (λ a. record a { input_device = record a.input_device { volume = v } })) s
  update_settings (SettingsPageMessage.output_volume_changed v) s =
      write_config
        (set_audio (λ a. record a { output_device = record a.output_device { volume = v } })) s
  update_settings (SettingsPageMessage.input_sensitivity_changed v) s =
      write_config (set_audio (λ a. record a { input_sensitivity = v })) s
  update_settings (SettingsPageMessage.notification_volume_changed v) s =
      write_config (set_audio (λ a. record a { notification_volume = v })) s
  update_settings _ s = s

  -- `writable` says whether the file takes a write at the time of the message.
  unfoldable pub update : Message.Message → Bool → ConfigState → ConfigState
  update
        (Message.voice_command_result
          (VoiceCommandResult.connected (ok (user_id, address, username))))
        writable s =
      write_config (set_server address username) s
  update (Message.settings_page m) writable s = update_settings m s
  update (Message.room_page (RoomPageMessage.user_volume_changed user_id volume)) writable s =
      write_config
        (set_audio (λ a. record a { users_volumes = env.insert a.users_volumes user_id volume })) s
  update Message.periodic_config_save writable s = save_config_if_dirty writable s
  update (Message.window_close_requested _) writable s = save_config_if_dirty writable s
  update _ writable s = s

  unfoldable pub updates : List (Message.Message × Bool) → ConfigState → ConfigState
  updates [] s = s
  updates ((m, writable) ∷ ms) s = updates ms (update m writable s)
