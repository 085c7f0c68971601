-- ===== src/Desktop/Config/Saved.antt =====
-- The configuration in memory and the one in the file.
use voiceapp.Base.{
  ◌≡◌, refl, sym, ap, ◌∙◌, ◌⊎◌, inl, inr, subst, Bool, true, false, Bool-cases, Option, none, some,
  Option-cases, some_inj, none-some, List, [], ◌∷◌, Result, ok, err,
}
use voiceapp.Desktop.Message
use voiceapp.Desktop.Message.{String, SettingsPageMessage, RoomPageMessage, VoiceCommandResult}
use voiceapp.Desktop.Config.{
  Env, Config, ConfigState, save, create_default_and_save, load, new, write_config,
  save_config_if_dirty, select_input_device, select_output_device, update_settings, update, updates,
}

module _ (env : Env)
    (trip : (c : Config env) (text : String)
      → env.to_string_pretty c ≡ some text
      → env.from_str text ≡ some c) where
  -- The file holds the configuration.
  abbrev pub Holds : Config env → Option String → Type 0
  Holds c file = (text : String) × (file ≡ some text) × (env.from_str text ≡ some c)

  -- While the flag is not set, the file holds the configuration.
  pub record IsSaved (s : ConfigState env) : Type 0 where
    pub clean : s.config_dirty ≡ false → Holds s.config s.file

  -- A save that fails leaves the file.
  save-cases :
      (writable : Bool) (c : Config env) (file : Option String)
      → (((save env writable c file).0 ≡ ok tt) × Holds c (save env writable c file).1)
        ⊎ (((save env writable c file).0 ≡ err tt) × ((save env writable c file).1 ≡ file))
  unfolding save
  save-cases writable c file = elim (Option-cases (env.to_string_pretty c)) [
    | inl e ↦ inr (rw (e, save) (refl, refl))
    | inr (text, e) ↦ elim (Bool-cases writable) [
      | inl takes ↦ inl (rw (e, save, takes) (refl, (text, refl, trip c text e)))
      | inr no_ ↦ inr (rw (e, save, no_) (refl, refl))
    ]
  ]

  create-Holds :
      (writable : Bool) (file : Option String) (c : Config env)
      → (create_default_and_save env writable file).0 ≡ some c
      → Holds c (create_default_and_save env writable file).1
  unfolding create_default_and_save
  create-Holds writable file c e = elim (save-cases writable env.default file) [
    | inl (written, holds) ↦
        let given : (create_default_and_save env writable file).0 ≡ some env.default =
          rw (written, create_default_and_save) refl in
        rw (written, create_default_and_save)
          (subst (λ x. Holds x (save env writable env.default file).1) (some_inj (sym given ∙ e))
            holds)
    | inr (refused, same) ↦
        let given : (create_default_and_save env writable file).0 ≡ none =
          rw (refused, create_default_and_save) refl in
        absurd (none-some (sym given ∙ e))
  ]

  pub load-Holds :
      (writable : Bool) (file : Option String) (c : Config env)
      → (load env writable file).0 ≡ some c
      → Holds c (load env writable file).1
  unfolding load
  load-Holds writable none c e = create-Holds writable none c e
  load-Holds writable (some contents) c e = elim (Option-cases (env.from_str contents)) [
    | inl refused ↦
        let given : (create_default_and_save env writable (some contents)).0 ≡ some c =
          rw (refused, load) at e in
        rw (refused, load) (create-Holds writable (some contents) c given)
    | inr (d, read) ↦
        let given : some d ≡ some c = rw (read, load) at e in
        rw (read, load) (contents, refl, read ∙ given)
  ]

  write-IsSaved :
      (f : Config env → Config env) (s : ConfigState env)
      → IsSaved s
      → IsSaved (write_config env f s)
  unfolding write_config
  write-IsSaved f s h = elim (Bool-cases (env.same s.config (f s.config))) [
    | inl same ↦ rw (same, write_config) h
    | inr differs ↦ rw (differs, write_config) (record { clean = λ e. absurd (cc) })
  ]

  save-IsSaved :
      (writable : Bool) (s : ConfigState env)
      → IsSaved s
      → IsSaved (save_config_if_dirty env writable s)
  unfolding save_config_if_dirty
  save-IsSaved writable s h = elim (Bool-cases s.config_dirty) [
    | inr clean ↦ rw (clean, save_config_if_dirty) (record { clean = λ e. h.clean clean })
    | inl dirty ↦ elim (save-cases writable s.config s.file) [
      | inl (done_, holds) ↦
          rw (dirty, save_config_if_dirty) (rw done_ (record { clean = λ e. holds }))
      | inr (failed, same) ↦
          rw (dirty, save_config_if_dirty) (rw failed (record { clean = λ e. absurd (cc) }))
    ]
  ]

  input-IsSaved :
      (device_id : String) (s : ConfigState env)
      → IsSaved s
      → IsSaved (select_input_device env device_id s)
  unfolding select_input_device
  input-IsSaved device_id s h = elim (Option-cases (env.find_device_by_id device_id)) [
    | inl missing ↦ rw (missing, select_input_device) h
    | inr (device, found) ↦ elim (Option-cases (env.find_best_input_stream_config device)) [
      | inl refused ↦ rw (found, select_input_device) (rw refused h)
      | inr (best, given) ↦ rw (found, select_input_device) (rw given (write-IsSaved _ s h))
    ]
  ]

  output-IsSaved :
      (device_id : String) (s : ConfigState env)
      → IsSaved s
      → IsSaved (select_output_device env device_id s)
  unfolding select_output_device
  output-IsSaved device_id s h = elim (Option-cases (env.find_device_by_id device_id)) [
    | inl missing ↦ rw (missing, select_output_device) h
    | inr (device, found) ↦ elim (Option-cases (env.find_best_output_stream_config device)) [
      | inl refused ↦ rw (found, select_output_device) (rw refused h)
      | inr (best, given) ↦ rw (found, select_output_device) (rw given (write-IsSaved _ s h))
    ]
  ]

  settings-IsSaved :
      (m : SettingsPageMessage) (s : ConfigState env)
      → IsSaved s
      → IsSaved (update_settings env m s)
  unfolding update_settings
  settings-IsSaved (SettingsPageMessage.select_input_device device_id) s h =
      input-IsSaved device_id s h
  settings-IsSaved (SettingsPageMessage.select_output_device device_id) s h =
      output-IsSaved device_id s h
  settings-IsSaved (SettingsPageMessage.input_volume_changed v) s h = write-IsSaved _ s h
  settings-IsSaved (SettingsPageMessage.output_volume_changed v) s h = write-IsSaved _ s h
  settings-IsSaved (SettingsPageMessage.input_sensitivity_changed v) s h = write-IsSaved _ s h
  settings-IsSaved (SettingsPageMessage.notification_volume_changed v) s h = write-IsSaved _ s h
  settings-IsSaved (SettingsPageMessage.radio_hover_enter _ _) s h = h
  settings-IsSaved (SettingsPageMessage.radio_hover_leave _ _) s h = h
  settings-IsSaved (SettingsPageMessage.input_stream_created _) s h = h

  update-IsSaved :
      (m : Message.Message) (writable : Bool) (s : ConfigState env)
      → IsSaved s
      → IsSaved (update env m writable s)
  unfolding update
  update-IsSaved (Message.voice_command_result (VoiceCommandResult.connected (ok x))) writable s h =
      write-IsSaved _ s h
  update-IsSaved (Message.voice_command_result (VoiceCommandResult.connected (err _))) writable s
        h =
      h
  update-IsSaved (Message.voice_command_result (VoiceCommandResult.joined_voice _)) writable s h = h
  update-IsSaved (Message.voice_command_result (VoiceCommandResult.left_voice _)) writable s h = h
  update-IsSaved (Message.voice_command_result (VoiceCommandResult.message_sent _)) writable s h = h
  update-IsSaved (Message.voice_command_result (VoiceCommandResult.pinged _)) writable s h = h
  update-IsSaved (Message.voice_command_result (VoiceCommandResult.voice_stats _ _)) writable s h =
      h
  update-IsSaved (Message.settings_page m) writable s h = settings-IsSaved m s h
  update-IsSaved (Message.room_page (RoomPageMessage.user_volume_changed u v)) writable s h =
      write-IsSaved _ s h
  update-IsSaved (Message.room_page RoomPageMessage.mute_toggle) writable s h = h
  update-IsSaved (Message.room_page RoomPageMessage.join_leave_toggle) writable s h = h
  update-IsSaved (Message.room_page (RoomPageMessage.chat_message_changed _)) writable s h = h
  update-IsSaved (Message.room_page RoomPageMessage.chat_message_submitted) writable s h = h
  update-IsSaved (Message.room_page (RoomPageMessage.user_clicked _)) writable s h = h
  update-IsSaved (Message.room_page RoomPageMessage.user_settings_dismissed) writable s h = h
  update-IsSaved Message.periodic_config_save writable s h = save-IsSaved writable s h
  update-IsSaved (Message.window_close_requested _) writable s h = save-IsSaved writable s h
  update-IsSaved (Message.login_page _) writable s h = h
  update-IsSaved (Message.key_pressed _) writable s h = h
  update-IsSaved (Message.server_event_received _) writable s h = h
  update-IsSaved (Message.switch_view _) writable s h = h
  update-IsSaved (Message.mute_input _) writable s h = h
  update-IsSaved (Message.execute_voice_command _) writable s h = h
  update-IsSaved (Message.voice_input_samples_received _) writable s h = h
  update-IsSaved Message.no_message writable s h = h

  updates-keeps :
      (ms : List (Message.Message × Bool)) (s : ConfigState env)
      → IsSaved s
      → IsSaved (updates env ms s)
  unfolding updates
  updates-keeps [] s h = h
  updates-keeps ((m, writable) ∷ ms) s h = updates-keeps ms _ (update-IsSaved m writable s h)

  written :
      (text : String) (c : Config env) (file : Option String)
      → env.to_string_pretty c ≡ some text
      → save env true c file ≡ (ok tt, some text)
  unfolding save
  written text c file e = rw (e, save) refl

  file_of : {r r' : Result (Unit {0}) (Unit {0}) × Option String} → r ≡ r' → r.1 ≡ r'.1
  file_of e = ap (λ (x : Result (Unit {0}) (Unit {0}) × Option String). x.1) e

  saves :
      (text : String) (s : ConfigState env)
      → IsSaved s
      → env.to_string_pretty s.config ≡ some text
      → Holds s.config (save_config_if_dirty env true s).file
  unfolding save_config_if_dirty
  saves text s h e = elim (Bool-cases s.config_dirty) [
    | inr clean ↦ rw (clean, save_config_if_dirty) (h.clean clean)
    | inl dirty ↦
        rw (dirty, save_config_if_dirty)
          (rw (written text s.config s.file e)
            (text, file_of (written text s.config s.file e), trip s.config text e))
  ]

  load_of_Holds :
      (c : Config env) (file : Option String) → Holds c file → (load env true file).0 ≡ some c
  unfolding load
  load_of_Holds c file (text, same, read) =
      ap (λ f. (load env true f).0) same ∙ rw (read, load) refl

  -- The text of a configuration, when it is read, gives the configuration. From a configuration that
  -- was loaded, and after any messages, during which writing the file may fail at any time: while the
  -- flag is not set, loading the file would give the configuration in memory.
  pub updates-IsSaved :
      (writable : Bool) (file : Option String) (c : Config env) (ms : List (Message.Message × Bool))
      → (load env writable file).0 ≡ some c
      → IsSaved (updates env ms (new env c (load env writable file).1))
  updates-IsSaved writable file c ms e =
      updates-keeps ms _ (record { clean = λ _. load-Holds writable file c e })

  -- The text of a configuration, when it is read, gives the configuration. Whatever messages came
  -- before, and whatever writes failed then, once a save is requested while the file takes a write and
  -- the configuration has a text, loading the file gives the configuration in memory.
  pub load-save :
      (writable : Bool) (file : Option String) (c : Config env) (ms : List (Message.Message × Bool))
      (text : String)
      → (load env writable file).0 ≡ some c
      → env.to_string_pretty (updates env ms (new env c (load env writable file).1)).config
        ≡ some text
      → let s = updates env ms (new env c (load env writable file).1) in
        (load env true (update env Message.periodic_config_save true s).file).0 ≡ some s.config
  unfolding update
  load-save writable file c ms text e has_text =
      let h = updates-IsSaved writable file c ms e in load_of_Holds _ _ (saves text _ h has_text)
