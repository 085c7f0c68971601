-- ===== src/Examples/Settings.antt =====
-- The configuration of the desktop program at chosen changes.
use native.Mathlib.Decide.{ℕ_discrete}
use voiceapp.Base.{
  ℕ, ◌+◌, ◌≡◌, ◌≢◌, ◌↔◌, refl, sym, ap, ◌∙◌, Bool, true, false, Option, none, some, some_inj,
  none-some, List, [], ◌∷◌, arith, ok,
}
use voiceapp.Desktop.Message
use voiceapp.Desktop.Message.{String, SettingsPageMessage, VoiceCommandResult}
use voiceapp.Desktop.Config
use voiceapp.Desktop.Config.{
  ServerConfig, AudioDevice, AudioConfig, AppConfig, Env, ConfigState, load, new, update, updates,
  write_config, update_settings,
}
use voiceapp.Desktop.Config.Saved.{IsSaved, updates-IsSaved, load-save}
use voiceapp.Desktop.Login.{Client, colon, connect_to, handle_voice_command}
use voiceapp.Desktop.Login.Address.{connected-config}

abbrev Volumes : Type 0
Volumes = List (ℕ × ℕ)

AppConfig-discrete : Discrete (AppConfig Volumes)
AppConfig-discrete = hlevel ℕ_discrete

abbrev device : AudioDevice
device = record {
  device_id = [];
  sample_rate = 48000;
  sample_format = [];
  channels = 1;
  volume = 100;
}

abbrev with_volume : ℕ → AppConfig Volumes
with_volume v = record {
  server = record { address = []; username = [] };
  audio = record {
    input_device = device;
    output_device = device;
    input_sensitivity = 0;
    users_volumes = [];
    notification_volume = v;
  };
}

abbrev is_yes : {P : Type 0} → Dec P → Bool
is_yes (yes p) = true
is_yes (no p) = false

abbrev same : AppConfig Volumes → AppConfig Volumes → Bool
same c d = is_yes (AppConfig-discrete c d)

of_yes : {P : Type 0} (d : Dec P) → (is_yes d ≡ true) ↔ P
of_yes (yes p) = (λ e. p, λ q. refl)
of_yes (no f) = (λ e. absurd (cc), λ q. absurd (f q))

-- The file format of two configurations, that with the volume 100 and that with the volume 50.
abbrev text_of : {P Q : Type 0} → Dec P → Dec Q → Option String
text_of (yes p) d = some []
text_of (no f) (yes q) = some (2 ∷ [])
text_of (no f) (no g) = none

abbrev text : AppConfig Volumes → Option String
text c = text_of (AppConfig-discrete c (with_volume 100)) (AppConfig-discrete c (with_volume 50))

abbrev parsed : String → Option (AppConfig Volumes)
parsed [] = some (with_volume 100)
parsed (b ∷ bs) = some (with_volume 50)

round_trip :
    (c : AppConfig Volumes) (t : String) (d : Dec (c ≡ with_volume 100))
    (e : Dec (c ≡ with_volume 50))
    → text_of d e ≡ some t
    → parsed t ≡ some c
round_trip c t (yes p) e h = ap parsed (sym (some_inj h)) ∙ ap some (sym p)
round_trip c t (no f) (yes q) h = ap parsed (sym (some_inj h)) ∙ ap some (sym q)
round_trip c t (no f) (no g) h = absurd (none-some h)

abbrev env : Env
env = record {
  Volumes = Volumes;
  insert = λ vs u v. (u, v) ∷ vs;
  Device = Unit {0};
  find_device_by_id = λ id. none;
  find_best_input_stream_config = λ d. none;
  find_best_output_stream_config = λ d. none;
  same = same;
  same_iff = λ c d. of_yes (AppConfig-discrete c d);
  to_string_pretty = text;
  from_str = parsed;
  default = with_volume 100;
}

trip :
    (c : AppConfig Volumes) (t : String) → env.to_string_pretty c ≡ some t → env.from_str t ≡ some c
trip c t h =
    round_trip c t (AppConfig-discrete c (with_volume 100)) (AppConfig-discrete c (with_volume 50))
      h

-- The volume of the notifications is turned down; a first save fails.
abbrev changes : List (Message.Message × Bool)
changes =
    (Message.settings_page (SettingsPageMessage.notification_volume_changed 50), true)
    ∷ (Message.periodic_config_save, false)
    ∷ []

loaded : (load env true (some [])).0 ≡ some (with_volume 100)
unfolding load
loaded = refl

updates-IsSaved_example :
    IsSaved env trip (updates env changes (new env (with_volume 100) (load env true (some [])).1))
updates-IsSaved_example = updates-IsSaved env trip true (some []) (with_volume 100) changes loaded

turned_down :
    env.to_string_pretty
      (updates env changes (new env (with_volume 100) (load env true (some [])).1)).config
    ≡ some (2 ∷ [])
unfolding load updates update update_settings write_config AppConfig-discrete
    Config.save_config_if_dirty ℕ_discrete Config.save
turned_down = refl

load-save_example :
    let s = updates env changes (new env (with_volume 100) (load env true (some [])).1) in
    (load env true (update env Message.periodic_config_save true s).file).0 ≡ some s.config
load-save_example =
    load-save env trip true (some []) (with_volume 100) changes (2 ∷ []) loaded turned_down

abbrev client : Client
client = record {
  connect = λ m v u. ok 4;
  join_channel = ok tt;
  leave_channel = ok tt;
  send_message = λ m. ok tt;
  ping = ok 1;
  get_voice_stats = (0, 0);
}

not_colon : (n : ℕ) → colon ≢ n + (colon + 1)
not_colon n e = absurd (omega (arith, e))

connected-config_example :
    (update env
      (Message.voice_command_result (handle_voice_command client (connect_to (104 ∷ []) (97 ∷ []))))
      true
      (new env (with_volume 100) none)).config.server
    ≡ record { address = 104 ∷ []; username = 97 ∷ [] }
connected-config_example =
    connected-config env client (104 ∷ []) (97 ∷ []) 4 true (new env (with_volume 100) none)
      (λ e. not_colon 45 (sym e), tt) refl
