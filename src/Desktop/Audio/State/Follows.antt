-- ===== src/Desktop/Audio/State/Follows.antt =====
-- The streams and the users in the voice channel.
use voiceapp.Base.{
  ℕ, ◌≡◌, ◌≢◌, refl, sym, subst, ◌∙◌, inl, inr, Bool, true, false, Bool-cases, none, none-some,
  List, [], ◌∷◌, All, ok, err,
}
use voiceapp.Table.{Table}
use voiceapp.Sdk.Events.{ClientEvent}
use voiceapp.Sdk.Voice.Output.{NetEq, Decoder}
use voiceapp.Desktop.Message
use voiceapp.Desktop.Message.{String, SettingsPageMessage, VoiceCommandResult}
use voiceapp.Desktop.Audio.{
  Devices, OutputStream, join_voice, leave_voice, unmute, play_notification, set_muted,
  stop_recording, remove_all_output_streams,
}
use voiceapp.Desktop.Audio.Streams.{
  Only, Only-map, play-Only, init-Only, start-Only, create-Only, creates-Only, remove_all-Only,
  remove-Only, play-input, init-input,
}
use voiceapp.Desktop.Audio.State.{
  AudioManagerState, new, contains, users, joined, left, user_joined, user_left, select_input,
  select_output, update, updates,
}
use voiceapp.Desktop.Audio.State.Members.{
  IsIn, weaken, inserted, kept, left_in, All-without, All-map, All-users,
}

module _ {Sample : Type 0} (n : NetEq Sample) (tu : Table (ℕ × ℕ)) (td : Table (Decoder n))
    (ts : Table OutputStream) (tm : Table (Unit {0})) where
  abbrev State : Type 0
  State = AudioManagerState n tu td ts tm

  -- Every stream is that of a user in the voice channel, and without the own user in it there is
  -- no stream and no open microphone.
  pub record IsFollowing (s : State) : Type 0 where
    pub listed : Only n tu td ts (IsIn tm s.users_in_voice) s.audio_manager
    pub quiet :
        contains tm s.users_in_voice s.user_id ≡ false
        → Only n tu td ts (λ _. ⊥) s.audio_manager × (s.audio_manager.input_stream ≡ none)

  -- A message that does not give the client a new number, and does not tell it of itself.
  abbrev pub Others : ℕ → Message.Message → Type 0
  Others own (Message.voice_command_result (VoiceCommandResult.connected (ok _))) = ⊥
  Others own (Message.server_event_received (ClientEvent.joined_voice u)) = u ≢ own
  Others own (Message.server_event_received (ClientEvent.left_voice u)) = u ≢ own
  Others own _ = Unit {0}

  clash : {b : Bool} → b ≡ true → b ≡ false → ⊥
  clash h k = absurd (cc)

  joined-IsFollowing :
      (d : Devices) (s : State) → IsFollowing s → IsFollowing (joined n tu td ts tm d s)
  unfolding joined
  joined-IsFollowing d s h = record {
    listed =
        creates-Only n tu td ts d (users tm s.users_in_voice) _
          (All-map (λ v. weaken tm s.users_in_voice s.user_id v) (users tm s.users_in_voice)
            (All-users tm s.users_in_voice))
          (start-Only n tu td ts d _ (
            play-Only n tu td ts join_voice _ (
              Only-map n tu td ts s.audio_manager (weaken tm s.users_in_voice s.user_id)
                h.listed)));
    quiet = λ e. absurd (clash (inserted tm s.users_in_voice s.user_id) e);
  }

  left-IsFollowing : (s : State) → IsFollowing (left n tu td ts tm s)
  unfolding left stop_recording remove_all_output_streams
  left-IsFollowing s =
      let a =
        stop_recording n tu td ts (play_notification n tu td ts leave_voice s.audio_manager) in
      record {
        listed = remove_all-Only n tu td ts a;
        quiet = λ e. (remove_all-Only n tu td ts a, refl);
      }

  user_joined-IsFollowing :
      (d : Devices) (u : ℕ) (s : State)
      → u ≢ s.user_id
      → IsFollowing s
      → IsFollowing (user_joined n tu td ts tm d u s)
  unfolding user_joined
  user_joined-IsFollowing d u s other h =
      let same = kept tm s.users_in_voice u s.user_id (λ e. other (sym e)) in
      let still = Only-map n tu td ts s.audio_manager (weaken tm s.users_in_voice u) h.listed in
      elim (Bool-cases (contains tm s.users_in_voice s.user_id)) [
        | inl inside ↦
            rw (same ∙ inside, user_joined)
              (record {
                listed =
                    create-Only n tu td ts d u _ (inserted tm s.users_in_voice u)
                      (play-Only n tu td ts join_voice s.audio_manager still);
                quiet = λ e. absurd (clash (same ∙ inside) e);
              })
        | inr outside ↦
            rw (same ∙ outside, user_joined)
              (record { listed = still; quiet = λ e. h.quiet outside })
      ]

  user_left-IsFollowing :
      (u : ℕ) (s : State)
      → u ≢ s.user_id
      → IsFollowing s
      → IsFollowing (user_left n tu td ts tm u s)
  unfolding user_left
  user_left-IsFollowing u s other h =
      let same = left_in tm s.users_in_voice u s.user_id (λ e. other (sym e)) in
      elim (Bool-cases (contains tm s.users_in_voice s.user_id)) [
        | inl inside ↦
            rw (inside, user_left)
              (record {
                listed =
                    remove-Only n tu td ts u _
                      (λ v differs e. left_in tm s.users_in_voice u v differs ∙ e)
                      (play-Only n tu td ts leave_voice s.audio_manager h.listed);
                quiet = λ e. absurd (clash (same ∙ inside) e);
              })
        | inr outside ↦
            rw (outside, user_left)
              (record {
                listed =
                    Only-map n tu td ts s.audio_manager (λ v no_. absurd no_) (h.quiet outside).0;
                quiet = λ e. h.quiet outside;
              })
      ]

  select_input-IsFollowing :
      (d : Devices) (s : State) → IsFollowing s → IsFollowing (select_input n tu td ts tm d s)
  unfolding select_input stop_recording
  select_input-IsFollowing d s h = elim (Bool-cases (contains tm s.users_in_voice s.user_id)) [
    | inl inside ↦
        rw (inside, select_input)
          (record {
            listed = start-Only n tu td ts d _ (record { at = h.listed.at });
            quiet = λ e. absurd (clash inside e);
          })
    | inr outside ↦ rw (outside, select_input) h
  ]

  select_output-IsFollowing :
      (d : Devices) (s : State) → IsFollowing s → IsFollowing (select_output n tu td ts tm d s)
  unfolding select_output
  select_output-IsFollowing d s h = elim (Bool-cases (contains tm s.users_in_voice s.user_id)) [
    | inl inside ↦
        rw (inside, select_output)
          (record {
            listed =
                creates-Only n tu td ts d _ _
                  (All-without _ s.user_id (users tm s.users_in_voice)
                    (All-users tm s.users_in_voice))
                  (remove_all-Only n tu td ts _);
            quiet = λ e. absurd (clash inside e);
          })
    | inr outside ↦
        rw (outside, select_output)
          (record {
            listed =
                play-Only n tu td ts unmute _ (init-Only n tu td ts d s.audio_manager h.listed);
            quiet = λ e. (
              play-Only n tu td ts unmute _
                  (init-Only n tu td ts d s.audio_manager (h.quiet outside).0),
              play-input n tu td ts unmute _
                  ∙ init-input n tu td ts d s.audio_manager
                  ∙ (h.quiet outside).1,
            );
          })
  ]

  muted-IsFollowing :
      (d : Devices) (b : Bool) (s : State)
      → IsFollowing s
      → IsFollowing (update n tu td ts tm d (Message.mute_input b) s)
  unfolding update set_muted
  muted-IsFollowing d b s h = record {
    listed = play-Only n tu td ts _ _ (record { at = h.listed.at });
    quiet = λ e. (
      play-Only n tu td ts _ _ (record { at = (h.quiet e).0.at }),
      play-input n tu td ts _ _ ∙ (h.quiet e).1,
    );
  }

  update-IsFollowing :
      (d : Devices) (m : Message.Message) (s : State)
      → Others s.user_id m
      → IsFollowing s
      → IsFollowing (update n tu td ts tm d m s)
  unfolding update
  update-IsFollowing d (Message.voice_command_result (VoiceCommandResult.connected (ok _))) s o h =
      absurd o
  update-IsFollowing d (Message.voice_command_result (VoiceCommandResult.joined_voice (ok _))) s o
        h =
      joined-IsFollowing d s h
  update-IsFollowing d (Message.voice_command_result (VoiceCommandResult.left_voice (ok _))) s o h =
      left-IsFollowing s
  update-IsFollowing d (Message.server_event_received (ClientEvent.joined_voice u)) s o h =
      user_joined-IsFollowing d u s o h
  update-IsFollowing d (Message.server_event_received (ClientEvent.left_voice u)) s o h =
      user_left-IsFollowing u s o h
  update-IsFollowing d (Message.settings_page (SettingsPageMessage.select_input_device _)) s o h =
      select_input-IsFollowing d s h
  update-IsFollowing d (Message.settings_page (SettingsPageMessage.select_output_device _)) s o h =
      select_output-IsFollowing d s h
  update-IsFollowing d (Message.mute_input b) s o h = muted-IsFollowing d b s h
  update-IsFollowing d (Message.voice_command_result (VoiceCommandResult.joined_voice (err _))) s o
        h =
      h
  update-IsFollowing d (Message.voice_command_result (VoiceCommandResult.left_voice (err _))) s o
        h =
      h
  update-IsFollowing d (Message.voice_command_result (VoiceCommandResult.connected (err _))) s o h =
      h
  update-IsFollowing d (Message.voice_command_result (VoiceCommandResult.message_sent _)) s o h = h
  update-IsFollowing d (Message.voice_command_result (VoiceCommandResult.pinged _)) s o h = h
  update-IsFollowing d (Message.voice_command_result (VoiceCommandResult.voice_stats _ _)) s o h = h
  update-IsFollowing d (Message.server_event_received (ClientEvent.participants_list _ _)) s o h = h
  update-IsFollowing d (Message.server_event_received (ClientEvent.joined_server _ _)) s o h = h
  update-IsFollowing d (Message.server_event_received (ClientEvent.left_server _)) s o h = h
  update-IsFollowing d (Message.server_event_received (ClientEvent.sent_message _ _ _)) s o h = h
  update-IsFollowing d (Message.server_event_received (ClientEvent.mute_state _ _)) s o h = h
  update-IsFollowing d (Message.settings_page (SettingsPageMessage.input_sensitivity_changed _)) s o
        h =
      h
  update-IsFollowing d (Message.settings_page (SettingsPageMessage.input_volume_changed _)) s o h =
      h
  update-IsFollowing d (Message.settings_page (SettingsPageMessage.output_volume_changed _)) s o h =
      h
  update-IsFollowing d (Message.settings_page (SettingsPageMessage.notification_volume_changed _)) s
        o h =
      h
  update-IsFollowing d (Message.settings_page (SettingsPageMessage.radio_hover_enter _ _)) s o h = h
  update-IsFollowing d (Message.settings_page (SettingsPageMessage.radio_hover_leave _ _)) s o h = h
  update-IsFollowing d (Message.settings_page (SettingsPageMessage.input_stream_created _)) s o h =
      h
  update-IsFollowing d (Message.login_page _) s o h = h
  update-IsFollowing d (Message.room_page _) s o h = h
  update-IsFollowing d (Message.switch_view _) s o h = h
  update-IsFollowing d (Message.execute_voice_command _) s o h = h
  update-IsFollowing d (Message.voice_input_samples_received _) s o h = h
  update-IsFollowing d (Message.key_pressed _) s o h = h
  update-IsFollowing d Message.periodic_config_save s o h = h
  update-IsFollowing d (Message.window_close_requested _) s o h = h
  update-IsFollowing d Message.no_message s o h = h

  same_user :
      (d : Devices) (m : Message.Message) (s : State)
      → Others s.user_id m
      → (update n tu td ts tm d m s).user_id ≡ s.user_id
  unfolding update joined left user_joined user_left select_input select_output
  same_user d (Message.voice_command_result (VoiceCommandResult.connected (ok _))) s o = absurd o
  same_user d (Message.voice_command_result (VoiceCommandResult.joined_voice (ok _))) s o = refl
  same_user d (Message.voice_command_result (VoiceCommandResult.left_voice (ok _))) s o = refl
  same_user d (Message.server_event_received (ClientEvent.joined_voice u)) s o =
      elim (Bool-cases (contains tm (tm.insert s.users_in_voice u tt) s.user_id)) [
        | inl inside ↦ rw (inside, user_joined) refl
        | inr outside ↦ rw (outside, user_joined) refl
      ]
  same_user d (Message.server_event_received (ClientEvent.left_voice u)) s o =
      elim (Bool-cases (contains tm s.users_in_voice s.user_id)) [
        | inl inside ↦ rw (inside, user_left) refl
        | inr outside ↦ rw (outside, user_left) refl
      ]
  same_user d (Message.settings_page (SettingsPageMessage.select_input_device _)) s o =
      elim (Bool-cases (contains tm s.users_in_voice s.user_id)) [
        | inl inside ↦ rw (inside, select_input) refl
        | inr outside ↦ rw (outside, select_input) refl
      ]
  same_user d (Message.settings_page (SettingsPageMessage.select_output_device _)) s o =
      elim (Bool-cases (contains tm s.users_in_voice s.user_id)) [
        | inl inside ↦ rw (inside, select_output) refl
        | inr outside ↦ rw (outside, select_output) refl
      ]
  same_user d (Message.mute_input b) s o = refl
  same_user d (Message.voice_command_result (VoiceCommandResult.joined_voice (err _))) s o = refl
  same_user d (Message.voice_command_result (VoiceCommandResult.left_voice (err _))) s o = refl
  same_user d (Message.voice_command_result (VoiceCommandResult.connected (err _))) s o = refl
  same_user d (Message.voice_command_result (VoiceCommandResult.message_sent _)) s o = refl
  same_user d (Message.voice_command_result (VoiceCommandResult.pinged _)) s o = refl
  same_user d (Message.voice_command_result (VoiceCommandResult.voice_stats _ _)) s o = refl
  same_user d (Message.server_event_received (ClientEvent.participants_list _ _)) s o = refl
  same_user d (Message.server_event_received (ClientEvent.joined_server _ _)) s o = refl
  same_user d (Message.server_event_received (ClientEvent.left_server _)) s o = refl
  same_user d (Message.server_event_received (ClientEvent.sent_message _ _ _)) s o = refl
  same_user d (Message.server_event_received (ClientEvent.mute_state _ _)) s o = refl
  same_user d (Message.settings_page (SettingsPageMessage.input_sensitivity_changed _)) s o = refl
  same_user d (Message.settings_page (SettingsPageMessage.input_volume_changed _)) s o = refl
  same_user d (Message.settings_page (SettingsPageMessage.output_volume_changed _)) s o = refl
  same_user d (Message.settings_page (SettingsPageMessage.notification_volume_changed _)) s o = refl
  same_user d (Message.settings_page (SettingsPageMessage.radio_hover_enter _ _)) s o = refl
  same_user d (Message.settings_page (SettingsPageMessage.radio_hover_leave _ _)) s o = refl
  same_user d (Message.settings_page (SettingsPageMessage.input_stream_created _)) s o = refl
  same_user d (Message.login_page _) s o = refl
  same_user d (Message.room_page _) s o = refl
  same_user d (Message.switch_view _) s o = refl
  same_user d (Message.execute_voice_command _) s o = refl
  same_user d (Message.voice_input_samples_received _) s o = refl
  same_user d (Message.key_pressed _) s o = refl
  same_user d Message.periodic_config_save s o = refl
  same_user d (Message.window_close_requested _) s o = refl
  same_user d Message.no_message s o = refl

  updates_keep :
      (ms : List (Devices × Message.Message)) (s : State)
      → All (λ (x : Devices × Message.Message). Others s.user_id x.1) ms
      → IsFollowing s
      → IsFollowing (updates n tu td ts tm ms s)
  unfolding updates
  updates_keep [] s o h = h
  updates_keep ((d, m) ∷ ms) s o h =
      updates_keep ms (update n tu td ts tm d m s)
        (subst (λ own. All (λ (x : Devices × Message.Message). Others own x.1) ms)
          (sym (same_user d m s o.0)) o.1)
        (update-IsFollowing d m s o.0 h)

  -- From the start, once the client has got its number: if it gets no other one, and no message tells it
  -- that it has itself joined or left the voice channel, then whatever messages come, and whichever
  -- devices fail, each stream is that of a user known to be in the voice channel, and while the client
  -- is not in the channel itself there is no stream and the microphone is not open.
  pub updates-IsFollowing :
      (ms : List (Devices × Message.Message)) (d : Devices) (own : ℕ) (address username : String)
      → All (λ (x : Devices × Message.Message). Others own x.1) ms
      → IsFollowing (
          updates n tu td ts tm ms (
            update n tu td ts tm d
              (Message.voice_command_result
                (VoiceCommandResult.connected (ok (own, address, username))))
              (new n tu td ts tm)))
  unfolding update
  updates-IsFollowing ms d own address username o = updates_keep ms _ o (record {
    listed = record { at = λ v e. absurd (none-some (sym (ts.get-empty v) ∙ e)) };
    quiet = λ e. (record { at = λ v e. absurd (none-some (sym (ts.get-empty v) ∙ e)) }, refl);
  })
