-- ===== src/Desktop/Audio/State.antt =====
-- desktop/src/state/audio_manager.rs: the users in the voice channel, and what the sound does on each
-- message.
pub mod Members
pub mod Follows
use voiceapp.Base.{
  ℕ, ◌==◌, Bool, true, false, if◌then◌else◌, Option, none, some, List, [], ◌∷◌, map, Result, ok,
  err,
}
use voiceapp.Table.{Table}
use voiceapp.Sdk.Events.{ClientEvent}
use voiceapp.Sdk.Voice.Output.{NetEq, Decoder}
use voiceapp.Desktop.Message
use voiceapp.Desktop.Message.{SettingsPageMessage, VoiceCommandResult}
use voiceapp.Desktop.Audio.{
  Sound, join_voice, leave_voice, mute, unmute, Devices, OutputStream, AudioManager, new_manager,
  start_recording, stop_recording, create_output_stream_for_user, remove_output_stream_for_user,
  remove_all_output_streams, init_notification_player, play_notification, set_muted,
  create_output_streams,
}

unfoldable pub without : ℕ → List ℕ → List ℕ
without own [] = []
without own (u ∷ us) = let rest = without own us in if u == own then rest else (u ∷ rest)

abbrev pub is_some : Option (Unit {0}) → Bool
is_some none = false
is_some (some _) = true

module _ (tm : Table (Unit {0})) where
  abbrev pub contains : tm.Map → ℕ → Bool
  contains users user_id = is_some (tm.get users user_id)

  abbrev pub users : tm.Map → List ℕ
  users m = map (λ (x : ℕ × Unit {0}). x.0) (tm.entries m)

module _ {Sample : Type 0} (n : NetEq Sample) (tu : Table (ℕ × ℕ)) (td : Table (Decoder n))
    (ts : Table OutputStream) (tm : Table (Unit {0})) where
  -- The set of users is a map to nothing.
  pub record AudioManagerState : Type 0 where
    pub audio_manager : AudioManager n tu td ts
    pub user_id : ℕ
    pub users_in_voice : tm.Map

  abbrev pub new : AudioManagerState
  new = record { audio_manager = new_manager n tu td ts; user_id = 0; users_in_voice = tm.empty }

  unfoldable pub joined : Devices → AudioManagerState → AudioManagerState
  joined d s = record s {
    audio_manager =
        create_output_streams n tu td ts d (users tm s.users_in_voice)
          (start_recording n tu td ts d (play_notification n tu td ts join_voice s.audio_manager));
    users_in_voice = tm.insert s.users_in_voice s.user_id tt;
  }

  unfoldable pub left : AudioManagerState → AudioManagerState
  left s = record s {
    audio_manager =
        remove_all_output_streams n tu td ts
          (stop_recording n tu td ts (play_notification n tu td ts leave_voice s.audio_manager));
    users_in_voice = tm.remove s.users_in_voice s.user_id;
  }

  unfoldable pub user_joined : Devices → ℕ → AudioManagerState → AudioManagerState
  user_joined d user_id s =
      let users_in_voice = tm.insert s.users_in_voice user_id tt in
      if contains tm users_in_voice s.user_id
      then record s {
        audio_manager =
            create_output_stream_for_user n tu td ts d user_id
              (play_notification n tu td ts join_voice s.audio_manager);
        users_in_voice = users_in_voice;
      }
      else record s { users_in_voice = users_in_voice }

  unfoldable pub user_left : ℕ → AudioManagerState → AudioManagerState
  user_left user_id s =
      let users_in_voice = tm.remove s.users_in_voice user_id in
      if contains tm s.users_in_voice s.user_id
      then record s {
        audio_manager =
            remove_output_stream_for_user n tu td ts user_id
              (play_notification n tu td ts leave_voice s.audio_manager);
        users_in_voice = users_in_voice;
      }
      else record s { users_in_voice = users_in_voice }

  unfoldable pub select_input : Devices → AudioManagerState → AudioManagerState
  select_input d s =
      if contains tm s.users_in_voice s.user_id
      then record s {
        audio_manager = start_recording n tu td ts d (stop_recording n tu td ts s.audio_manager);
      }
      else s

  unfoldable pub select_output : Devices → AudioManagerState → AudioManagerState
  select_output d s =
      let a =
        play_notification n tu td ts unmute
          (init_notification_player n tu td ts d s.audio_manager) in
      if contains tm s.users_in_voice s.user_id
      then record s {
        audio_manager =
            create_output_streams n tu td ts d (without s.user_id (users tm s.users_in_voice))
              (remove_all_output_streams n tu td ts a);
      }
      else record s { audio_manager = a }

  unfoldable pub update : Devices → Message.Message → AudioManagerState → AudioManagerState
  update d
        (Message.voice_command_result
          (VoiceCommandResult.connected (ok (user_id, address, username))))
        s =
      record s { user_id = user_id }
  update d (Message.voice_command_result (VoiceCommandResult.joined_voice (ok _))) s = joined d s
  update d (Message.voice_command_result (VoiceCommandResult.left_voice (ok _))) s = left s
  update d (Message.server_event_received (ClientEvent.joined_voice user_id)) s =
      user_joined d user_id s
  update d (Message.server_event_received (ClientEvent.left_voice user_id)) s = user_left user_id s
  update d (Message.settings_page (SettingsPageMessage.select_input_device device_id)) s =
      select_input d s
  update d (Message.settings_page (SettingsPageMessage.select_output_device device_id)) s =
      select_output d s
  update d (Message.mute_input muted) s = record s {
    audio_manager =
        play_notification n tu td ts (if muted then mute else unmute)
          (set_muted n tu td ts muted s.audio_manager);
  }
  update d _ s = s

  -- The messages, each with the devices at its time.
  unfoldable pub updates : List (Devices × Message.Message) → AudioManagerState → AudioManagerState
  updates [] s = s
  updates ((d, m) ∷ ms) s = updates ms (update d m s)
