-- ===== src/Desktop/Login/Filled.antt =====
-- What the login page asks the client to do.
use voiceapp.Base.{
  ◌≡◌, ◌≢◌, refl, sym, ◌∙◌, inl, inr, ◌==◌, ◌&&◌, not, true, Bool-cases, List, [], ◌∷◌, length, All,
  All-append, ok, err, arith,
}
use voiceapp.Desktop.Message
use voiceapp.Desktop.Message.{
  String, LoginPageMessage, VoiceCommand, VoiceCommandResult, Task, Effect, send, ViewType,
}
use voiceapp.Desktop.Config.{ServerConfig}
use voiceapp.Desktop.Login.{
  LoginPage, is_form_filled, new, refill, update_page, update, updates, connect_to,
}

-- The only commands are to connect to an address that is given, under a name that is given.
abbrev pub Connects : Effect → Type 0
Connects (send (Message.execute_voice_command command)) =
    (address : String) × (username : String) × (command ≡ connect_to address username)
    × (address ≢ [])
    × (username ≢ [])
Connects _ = Unit {0}

-- The flag says whether both fields are filled.
pub record IsChecked (p : LoginPage) : Type 0 where
  pub checked : p.form_filled ≡ is_form_filled p

filled :
    (xs ys : String) → (not (length xs == 0) && not (length ys == 0)) ≡ true → (ys ≢ []) × (xs ≢ [])
filled [] ys h = absurd (cc)
filled (x ∷ xs) [] h = ground (arith, h)
filled (x ∷ xs) (y ∷ ys) h = (λ e. absurd (cc), λ e. absurd (cc))

-- A step keeps the flag, and asks for nothing else.
pub record Step (r : Task × LoginPage) : Type 0 where
  pub checked : IsChecked r.1
  pub connects : All Connects r.0

refill-IsChecked : (p : LoginPage) → IsChecked (refill p)
unfolding refill is_form_filled
refill-IsChecked p = record { checked = refl }

update_page-Step : (m : LoginPageMessage) (p : LoginPage) → IsChecked p → Step (update_page m p)
unfolding update_page is_form_filled
update_page-Step (LoginPageMessage.voice_url_changed content) p h = record {
  checked = refill-IsChecked _;
  connects = tt;
}
update_page-Step (LoginPageMessage.username_changed content) p h = record {
  checked = refill-IsChecked _;
  connects = tt;
}
update_page-Step LoginPageMessage.login_submitted p h = elim (Bool-cases p.form_filled) [
  | inl full ↦
      let (address, username) = filled p.username p.voice_url (sym h.checked ∙ full) in
      rw (full, update_page)
        (record {
          checked = record { checked = sym full ∙ h.checked };
          connects = ((p.voice_url, p.username, refl, address, username), tt);
        })
  | inr partial ↦
      rw (partial, update_page)
        (record { checked = record { checked = sym partial ∙ h.checked }; connects = tt })
]

update-Step : (m : Message.Message) (p : LoginPage) → IsChecked p → Step (update m p)
unfolding update is_form_filled
update-Step (Message.login_page m) p h = update_page-Step m p h
update-Step (Message.voice_command_result (VoiceCommandResult.connected (ok _))) p h = record {
  checked = h;
  connects = (tt, tt);
}
update-Step (Message.voice_command_result (VoiceCommandResult.connected (err e))) p h = record {
  checked = record { checked = h.checked };
  connects = tt;
}
update-Step (Message.voice_command_result (VoiceCommandResult.joined_voice _)) p h = record {
  checked = h;
  connects = tt;
}
update-Step (Message.voice_command_result (VoiceCommandResult.left_voice _)) p h = record {
  checked = h;
  connects = tt;
}
update-Step (Message.voice_command_result (VoiceCommandResult.message_sent _)) p h = record {
  checked = h;
  connects = tt;
}
update-Step (Message.voice_command_result (VoiceCommandResult.pinged _)) p h = record {
  checked = h;
  connects = tt;
}
update-Step (Message.voice_command_result (VoiceCommandResult.voice_stats _ _)) p h = record {
  checked = h;
  connects = tt;
}
update-Step (Message.room_page _) p h = record { checked = h; connects = tt }
update-Step (Message.settings_page _) p h = record { checked = h; connects = tt }
update-Step (Message.switch_view _) p h = record { checked = h; connects = tt }
update-Step (Message.mute_input _) p h = record { checked = h; connects = tt }
update-Step (Message.execute_voice_command _) p h = record { checked = h; connects = tt }
update-Step (Message.server_event_received _) p h = record { checked = h; connects = tt }
update-Step (Message.voice_input_samples_received _) p h = record { checked = h; connects = tt }
update-Step (Message.key_pressed _) p h = record { checked = h; connects = tt }
update-Step Message.periodic_config_save p h = record { checked = h; connects = tt }
update-Step (Message.window_close_requested _) p h = record { checked = h; connects = tt }
update-Step Message.no_message p h = record { checked = h; connects = tt }

updates_keep : (ms : List Message.Message) (p : LoginPage) → IsChecked p → Step (updates ms p)
unfolding updates
updates_keep [] p h = record { checked = h; connects = tt }
updates_keep (m ∷ ms) p h =
    let s = update-Step m p h in
    let later = updates_keep ms (update m p).1 s.checked in
    record {
      checked = later.checked;
      connects =
          All-append Connects (update m p).0 (updates ms (update m p).1).0 s.connects
            later.connects;
    }

-- Whatever messages the login page has got since its start, the flag says whether both of its fields
-- are filled, and the only commands that it has given are to connect, at the two ports of an
-- address that is not empty, under a name that is not empty.
pub updates-Step : (ms : List Message.Message) (c : ServerConfig) → Step (updates ms (new c))
unfolding new is_form_filled
updates-Step ms c = updates_keep ms (new c) (record { checked = refl })
