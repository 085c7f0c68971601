-- ===== src/Desktop/Room/Roster.antt =====
-- The participants of the room's page, user by user.
use voiceapp.Base.{
  ℕ, ◌≡◌, refl, sym, ap, ◌∙◌, inl, inr, ◌==◌, ==_iff, true, false, Bool-cases, if◌then◌else◌,
  Option, none, some, Option-cases, List, [], ◌∷◌, map,
}
use voiceapp.Table.{Table}
use voiceapp.Protocol.Packet.{ParticipantInfo}
use voiceapp.Sdk.Events.{ClientEvent}
use voiceapp.Desktop.Message
use voiceapp.Desktop.Message.{String}
use voiceapp.Desktop.Room.{
  ChatMessage, RoomPage, change_participant, collect, update_event, update, updates,
}

-- The last entry of a user in a list of participants.
abbrev pub listed : ℕ → List ParticipantInfo → Option ParticipantInfo → Option ParticipantInfo
listed k [] o = o
listed k (p ∷ ps) o = listed k ps (if k == p.user_id then some p else o)

abbrev pub changed :
    (ParticipantInfo → ParticipantInfo) → Option ParticipantInfo → Option ParticipantInfo
changed f none = none
changed f (some p) = some (f p)

-- What an event says of the user k, who was known as `o`.
abbrev pub told : ℕ → ClientEvent → Option ParticipantInfo → Option ParticipantInfo
told k (ClientEvent.participants_list _ ps) o = listed k ps none
told k (ClientEvent.joined_server u name) o =
    if k == u
    then some (record { user_id = u; username = name; in_voice = false; is_muted = false })
    else o
told k (ClientEvent.joined_voice u) o =
    if k == u then changed (λ p. record p { in_voice = true; is_muted = false }) o else o
told k (ClientEvent.left_voice u) o =
    if k == u then changed (λ p. record p { in_voice = false; is_muted = false }) o else o
told k (ClientEvent.left_server u) o = if k == u then none else o
told k (ClientEvent.sent_message u t message) o = o
told k (ClientEvent.mute_state u b) o =
    if k == u then changed (λ p. record p { is_muted = b }) o else o

abbrev pub told_all : ℕ → List ClientEvent → Option ParticipantInfo → Option ParticipantInfo
told_all k [] o = o
told_all k (e ∷ es) o = told_all k es (told k e o)

module _ (format_time : ℕ → String) (tp : Table ParticipantInfo) (tc : Table ChatMessage)
    (tv : Table ℕ) where
  collect-listed :
      (k : ℕ) (ps : List ParticipantInfo) (m : tp.Map)
      → tp.get (collect format_time tp tc tv ps m) k ≡ listed k ps (tp.get m k)
  unfolding collect
  collect-listed k [] m = refl
  collect-listed k (p ∷ ps) m =
      collect-listed k ps (tp.insert m p.user_id p)
      ∙ ap (listed k ps) (tp.get-insert m p.user_id p k)

  change-changed :
      (k u : ℕ) (f : ParticipantInfo → ParticipantInfo) (r : RoomPage format_time tp tc tv)
      → tp.get (change_participant format_time tp tc tv u f r).participants k
        ≡ (if k == u then changed f (tp.get r.participants k) else tp.get r.participants k)
  unfolding change_participant
  change-changed k u f r = elim (Option-cases (tp.get r.participants u)) [
    | inl missing ↦ elim (Bool-cases (k == u)) [
      | inl same ↦
          let gone : tp.get r.participants k ≡ none =
            ap (tp.get r.participants) ((==_iff k u).0 same) ∙ missing in
          rw (missing, change_participant, same) (gone ∙ sym (ap (changed f) gone))
      | inr other ↦ rw (missing, change_participant, other) refl
    ]
    | inr (p, e) ↦ elim (Bool-cases (k == u)) [
      | inl same ↦
          let there : tp.get r.participants k ≡ some p =
            ap (tp.get r.participants) ((==_iff k u).0 same) ∙ e in
          rw (e, change_participant, same)
            (tp.get-insert r.participants u (f p) k ∙ rw same refl ∙ sym (ap (changed f) there))
      | inr other ↦
          rw (e, change_participant, other) (tp.get-insert r.participants u (f p) k ∙ rw other refl)
    ]
  ]

  update_event-told :
      (k : ℕ) (event : ClientEvent) (r : RoomPage format_time tp tc tv)
      → tp.get (update_event format_time tp tc tv event r).1.participants k
        ≡ told k event (tp.get r.participants k)
  unfolding update_event
  update_event-told k (ClientEvent.participants_list u ps) r =
      collect-listed k ps tp.empty ∙ ap (listed k ps) (tp.get-empty k)
  update_event-told k (ClientEvent.joined_server u name) r = tp.get-insert r.participants u _ k
  update_event-told k (ClientEvent.joined_voice u) r = change-changed k u _ r
  update_event-told k (ClientEvent.left_voice u) r = change-changed k u _ r
  update_event-told k (ClientEvent.left_server u) r = tp.get-remove r.participants u k
  update_event-told k (ClientEvent.sent_message u t message) r =
      elim (Option-cases (tp.get r.participants u)) [
        | inl missing ↦ rw (missing, update_event) refl
        | inr (p, e) ↦ rw (e, update_event) refl
      ]
  update_event-told k (ClientEvent.mute_state u b) r = change-changed k u _ r

  -- What the page of the room shows of a user after a sequence of events is what the events about this
  -- user say, one after the other, where a list of participants says all of everyone; the events about
  -- others and the chat do not matter to it.
  pub updates-told :
      (k : ℕ) (events : List ClientEvent) (r : RoomPage format_time tp tc tv)
      → tp.get
          (updates format_time tp tc tv (map Message.server_event_received events) r).1.participants
          k
        ≡ told_all k events (tp.get r.participants k)
  unfolding updates update
  updates-told k [] r = refl
  updates-told k (e ∷ es) r =
      updates-told k es (update_event format_time tp tc tv e r).1
      ∙ ap (told_all k es) (update_event-told k e r)
