-- ===== src/Desktop/Room/Keeps.antt =====
-- What every message keeps of the room's page.
use voiceapp.Base.{
  ℕ, ◌≤◌, ◌≡◌, refl, sym, ap, ◌∙◌, inl, inr, ◌==◌, ==_iff, leb, leb→le, Bool-cases, none, some,
  Option-cases, some_inj, none-some, List, [], ◌∷◌, length, ok, err, arith,
}
use voiceapp.Table.{Table}
use voiceapp.Protocol.Packet.{ParticipantInfo}
use voiceapp.Sdk.Events.{ClientEvent}
use voiceapp.Desktop.Message
use voiceapp.Desktop.Message.{
  String, RoomPageMessage, mute_toggle, join_leave_toggle, chat_message_changed,
  chat_message_submitted, user_clicked, user_settings_dismissed, user_volume_changed,
  VoiceCommandResult, Key, f10, escape, other_key,
}
use voiceapp.Desktop.Room.{
  ChatMessage, RoomPage, new, is_in_voice, change_participant, update_page, update_result,
  update_key, collect, update_event, update, updates, max_chat_message,
}

module _ (format_time : ℕ → String) (tp : Table ParticipantInfo) (tc : Table ChatMessage)
    (tv : Table ℕ) where
  -- Each participant stands under its own number.
  pub record IsKeyed (m : tp.Map) : Type 0 where
    pub at : (k : ℕ) {p : ParticipantInfo} → tp.get m k ≡ some p → p.user_id ≡ k

  pub record IsRoom (r : RoomPage format_time tp tc tv) : Type 0 where
    pub keyed : IsKeyed r.participants
    pub short : length r.chat_message ≤ max_chat_message

  empty-IsKeyed : IsKeyed tp.empty
  empty-IsKeyed = record { at = λ k e. absurd (none-some (sym (tp.get-empty k) ∙ e)) }

  insert-IsKeyed :
      (m : tp.Map) (k : ℕ) (p : ParticipantInfo)
      → p.user_id ≡ k
      → IsKeyed m
      → IsKeyed (tp.insert m k p)
  insert-IsKeyed m k p own h = record {
    at = λ j e. elim (Bool-cases (j == k)) [
      | inl same ↦
          let there : tp.get (tp.insert m k p) j ≡ some p = tp.get-insert m k p j ∙ rw same refl in
          ap (λ (x : ParticipantInfo). x.user_id) (sym (some_inj (sym there ∙ e)))
          ∙ own
          ∙ sym ((==_iff j k).0 same)
      | inr other ↦ h.at j (sym (tp.get-insert m k p j ∙ rw other refl) ∙ e)
    ];
  }

  remove-IsKeyed : (m : tp.Map) (k : ℕ) → IsKeyed m → IsKeyed (tp.remove m k)
  remove-IsKeyed m k h = record {
    at = λ j e. elim (Bool-cases (j == k)) [
      | inl same ↦
          let gone : tp.get (tp.remove m k) j ≡ none = tp.get-remove m k j ∙ rw same refl in
          absurd (none-some (sym gone ∙ e))
      | inr other ↦ h.at j (sym (tp.get-remove m k j ∙ rw other refl) ∙ e)
    ];
  }

  collect-IsKeyed :
      (ps : List ParticipantInfo) (m : tp.Map)
      → IsKeyed m
      → IsKeyed (collect format_time tp tc tv ps m)
  unfolding collect
  collect-IsKeyed [] m h = h
  collect-IsKeyed (p ∷ ps) m h = collect-IsKeyed ps _ (insert-IsKeyed m p.user_id p refl h)

  change-IsRoom :
      (u : ℕ) (change : ParticipantInfo → ParticipantInfo) (r : RoomPage format_time tp tc tv)
      → ((p : ParticipantInfo) → (change p).user_id ≡ p.user_id)
      → IsRoom r
      → IsRoom (change_participant format_time tp tc tv u change r)
  unfolding change_participant
  change-IsRoom u change r same h = elim (Option-cases (tp.get r.participants u)) [
    | inl missing ↦ rw (missing, change_participant) h
    | inr (p, e) ↦
        rw (e, change_participant)
          (record {
            keyed = insert-IsKeyed r.participants u (change p) (same p ∙ h.keyed.at u e) h.keyed;
            short = h.short;
          })
  ]

  update_page-IsRoom :
      (m : RoomPageMessage) (r : RoomPage format_time tp tc tv)
      → IsRoom r
      → IsRoom (update_page format_time tp tc tv m r).1
  unfolding update_page
  update_page-IsRoom mute_toggle r h =
      change-IsRoom r.user_id _ _ (λ p. refl) (record { keyed = h.keyed; short = h.short })
  update_page-IsRoom join_leave_toggle r h =
      elim (Bool-cases (is_in_voice format_time tp tc tv r)) [
        | inl inside ↦ rw (inside, update_page) h
        | inr outside ↦ rw (outside, update_page) h
      ]
  update_page-IsRoom (chat_message_changed value) r h =
      elim (Bool-cases (leb (length value) max_chat_message)) [
        | inl fits ↦ rw (fits, update_page) (record { keyed = h.keyed; short = leb→le _ _ fits })
        | inr long ↦ rw (long, update_page) h
      ]
  update_page-IsRoom chat_message_submitted r h = elim (Bool-cases (length r.chat_message == 0)) [
    | inl blank ↦ rw (blank, update_page) h
    | inr filled ↦ rw (filled, update_page) (record { keyed = h.keyed; short = omega arith })
  ]
  update_page-IsRoom (user_clicked user_id) r h = record { keyed = h.keyed; short = h.short }
  update_page-IsRoom user_settings_dismissed r h = record { keyed = h.keyed; short = h.short }
  update_page-IsRoom (user_volume_changed user_id volume) r h = record {
    keyed = h.keyed;
    short = h.short;
  }

  update_result-IsRoom :
      (result : VoiceCommandResult) (r : RoomPage format_time tp tc tv)
      → IsRoom r
      → IsRoom (update_result format_time tp tc tv result r)
  unfolding update_result
  update_result-IsRoom (VoiceCommandResult.joined_voice (ok _)) r h =
      change-IsRoom r.user_id _ r (λ p. refl) h
  update_result-IsRoom (VoiceCommandResult.joined_voice (err _)) r h = h
  update_result-IsRoom (VoiceCommandResult.left_voice (ok _)) r h =
      change-IsRoom r.user_id _ r (λ p. refl) h
  update_result-IsRoom (VoiceCommandResult.left_voice (err _)) r h = h
  update_result-IsRoom (VoiceCommandResult.message_sent _) r h = h
  update_result-IsRoom (VoiceCommandResult.pinged (ok rtt_ms)) r h = record {
    keyed = h.keyed;
    short = h.short;
  }
  update_result-IsRoom (VoiceCommandResult.pinged (err _)) r h = record {
    keyed = h.keyed;
    short = h.short;
  }
  update_result-IsRoom (VoiceCommandResult.voice_stats s q) r h = record {
    keyed = h.keyed;
    short = h.short;
  }
  update_result-IsRoom (VoiceCommandResult.connected _) r h = h

  update_key-IsRoom :
      (key : Key) (r : RoomPage format_time tp tc tv)
      → IsRoom r
      → IsRoom (update_key format_time tp tc tv key r)
  unfolding update_key
  update_key-IsRoom f10 r h = record { keyed = h.keyed; short = h.short }
  update_key-IsRoom escape r h = h
  update_key-IsRoom other_key r h = h

  update_event-IsRoom :
      (event : ClientEvent) (r : RoomPage format_time tp tc tv)
      → IsRoom r
      → IsRoom (update_event format_time tp tc tv event r).1
  unfolding update_event
  update_event-IsRoom (ClientEvent.participants_list u ps) r h = record {
    keyed = collect-IsKeyed ps tp.empty empty-IsKeyed;
    short = h.short;
  }
  update_event-IsRoom (ClientEvent.joined_server u name) r h = record {
    keyed = insert-IsKeyed r.participants u _ refl h.keyed;
    short = h.short;
  }
  update_event-IsRoom (ClientEvent.joined_voice u) r h = change-IsRoom u _ r (λ p. refl) h
  update_event-IsRoom (ClientEvent.left_voice u) r h = change-IsRoom u _ r (λ p. refl) h
  update_event-IsRoom (ClientEvent.left_server u) r h = record {
    keyed = remove-IsKeyed r.participants u h.keyed;
    short = h.short;
  }
  update_event-IsRoom (ClientEvent.sent_message u t message) r h =
      elim (Option-cases (tp.get r.participants u)) [
        | inl missing ↦ rw (missing, update_event) h
        | inr (p, e) ↦ rw (e, update_event) (record { keyed = h.keyed; short = h.short })
      ]
  update_event-IsRoom (ClientEvent.mute_state u b) r h = change-IsRoom u _ r (λ p. refl) h

  update-IsRoom :
      (m : Message.Message) (r : RoomPage format_time tp tc tv)
      → IsRoom r
      → IsRoom (update format_time tp tc tv m r).1
  unfolding update
  update-IsRoom (Message.room_page m) r h = update_page-IsRoom m r h
  update-IsRoom (Message.voice_command_result result) r h = update_result-IsRoom result r h
  update-IsRoom (Message.key_pressed key) r h = update_key-IsRoom key r h
  update-IsRoom (Message.server_event_received event) r h = update_event-IsRoom event r h
  update-IsRoom (Message.login_page _) r h = h
  update-IsRoom (Message.settings_page _) r h = h
  update-IsRoom (Message.switch_view _) r h = h
  update-IsRoom (Message.mute_input _) r h = h
  update-IsRoom (Message.execute_voice_command _) r h = h
  update-IsRoom (Message.voice_input_samples_received _) r h = h
  update-IsRoom Message.periodic_config_save r h = h
  update-IsRoom (Message.window_close_requested _) r h = h
  update-IsRoom Message.no_message r h = h

  updates-keeps :
      (ms : List Message.Message) (r : RoomPage format_time tp tc tv)
      → IsRoom r
      → IsRoom (updates format_time tp tc tv ms r).1
  unfolding updates
  updates-keeps [] r h = h
  updates-keeps (m ∷ ms) r h = updates-keeps ms _ (update-IsRoom m r h)

  -- Whatever messages the page of the room has got since its start, each participant stands under its
  -- own number, and the chat message that is being written has at most 2000 bytes.
  pub updates-IsRoom :
      (ms : List Message.Message) (volumes : tv.Map)
      → IsRoom (updates format_time tp tc tv ms (new format_time tp tc tv volumes)).1
  updates-IsRoom ms volumes =
      updates-keeps ms _ (record { keyed = empty-IsKeyed; short = omega arith })
