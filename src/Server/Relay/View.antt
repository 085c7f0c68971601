-- ===== src/Server/Relay/View.antt =====
-- What the relay knows of each user, as the events of the management server tell it.
pub mod Runs
use voiceapp.Base.{
  some_inj, none-some, subst, filter_map, ℕ, ◌≡◌, refl, sym, ◌∙◌, ◌==◌, ==_iff, inl, inr, Bool,
  true, false, Bool-cases, Option, none, some, Option-cases, List, [], ◌∷◌, if◌then◌else◌, arith,
  Member, Result-cases,
}
use voiceapp.Table.{Table}
use voiceapp.Protocol.Packet.{
  Packet, encode, decode, login_request, voice_auth_request, join_voice_channel_request,
  leave_voice_channel_request, chat_message_request, ping_request, login_response,
  voice_auth_response, join_voice_channel_response, leave_voice_channel_response,
  chat_message_response, ping_response, user_joined_server, user_joined_voice, user_left_voice,
  user_left_server, user_sent_message, user_mute_state, voice_data,
}
use voiceapp.Server.Event.{Event, user_connected, voice_joined, voice_left, user_disconnected}
use voiceapp.Server.Session.{VoiceSession}
use voiceapp.Server.Relay.Forwards.{send_to_all-datagrams}
use voiceapp.Server.Relay.{
  VoiceRelayServer, find, unwrap_all, recipient, new, set_in_voice, forget_address, handle_event,
  send_to, forward_voice_packet, authenticate, handle_decoded, handle_packet, Turn, datagram, event,
  turn, run,
}

-- The token of each user that is connected, and whether it is in the voice channel.
abbrev pub View : Type 0
View = ℕ → Option (ℕ × Bool)

abbrev pub talking : Bool → Option (ℕ × Bool) → Option (ℕ × Bool)
talking b none = none
talking b (some (token, _)) = some (token, b)

-- What an event says.
abbrev pub told : Event → View → View
told (user_connected id token) v j = if j == id then some (token, false) else v j
told (voice_joined id) v j = if j == id then talking true (v j) else v j
told (voice_left id) v j = if j == id then talking false (v j) else v j
told (user_disconnected id) v j = if j == id then none else v j

-- What the events say, one after the other.
abbrev pub directory : List Event → View → View
directory [] v = v
directory (e ∷ es) v = directory es (told e v)

abbrev pub session_view : Option VoiceSession → Option (ℕ × Bool)
session_view none = none
session_view (some s) = some (s.token, s.in_voice)

module _ (ts : Table VoiceSession) (ta : Table ℕ) where
  unfoldable pub view : VoiceRelayServer ts ta → View
  view r j = session_view (ts.get r.sessions j)

  -- The events among the turns.
  abbrev pub events_of : List (Turn ts ta) → List Event
  events_of [] = []
  events_of (datagram _ _ ∷ xs) = events_of xs
  events_of (event e ∷ xs) = e ∷ events_of xs

  forget_address-sessions :
      (id : ℕ) (r : VoiceRelayServer ts ta) → (forget_address ts ta id r).sessions ≡ r.sessions
  unfolding forget_address
  forget_address-sessions id r =
      elim (Option-cases (find (λ (e : ℕ × ℕ). e.1 == id) (ta.entries r.ids_by_addresses))) [
        | inl e ↦ rw (e, forget_address)
        | inr (x, e) ↦ rw (e, forget_address)
      ]

  -- A session put in the place of one: the view changes at its key alone.
  pub session_view-insert :
      (m : ts.Map) (id : ℕ) (s : VoiceSession) (j : ℕ)
      → session_view (ts.get (ts.insert m id s) j)
        ≡ (if j == id then some (s.token, s.in_voice) else session_view (ts.get m j))
  session_view-insert m id s j = elim (Bool-cases (j == id)) [
    | inl here ↦ rw (ts.get-insert m id s j, session_view, here)
    | inr there ↦ rw (ts.get-insert m id s j, session_view, there)
  ]

  view-set_in_voice :
      (id : ℕ) (b : Bool) (r : VoiceRelayServer ts ta) (j : ℕ)
      → view (set_in_voice ts ta id b r) j ≡ (if j == id then talking b (view r j) else view r j)
  unfolding set_in_voice view
  view-set_in_voice id b r j = elim (Option-cases (ts.get r.sessions id)) [
    | inl e ↦
        rw (e, view, set_in_voice)
          (elim (Bool-cases (j == id)) [
            | inl here ↦ let j_is : j ≡ id = (==_iff j id).0 here in rw (here, j_is, e)
            | inr there ↦ rw there
          ])
    | inr (s, e) ↦
        rw (e, view, set_in_voice)
          (session_view-insert r.sessions id (record s { in_voice = b }) j
            ∙ elim (Bool-cases (j == id)) [
              | inl here ↦ let j_is : j ≡ id = (==_iff j id).0 here in rw (here, j_is, e)
              | inr there ↦ rw there
            ])
  ]

  pub view-handle_event :
      (e : Event) (r : VoiceRelayServer ts ta) (j : ℕ)
      → view (handle_event ts ta e r) j ≡ told e (view r) j
  unfolding handle_event view
  view-handle_event (user_connected id token) r j = session_view-insert r.sessions id _ j
  view-handle_event (voice_joined id) r j = view-set_in_voice id true r j
  view-handle_event (voice_left id) r j = view-set_in_voice id false r j
  view-handle_event (user_disconnected id) r j =
      rw (forget_address-sessions id r) (elim (Bool-cases (j == id)) [
        | inl here ↦ rw (ts.get-remove r.sessions id j, session_view, here)
        | inr there ↦ rw (ts.get-remove r.sessions id j, session_view, there)
      ])
