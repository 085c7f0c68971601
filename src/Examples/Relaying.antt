-- ===== src/Examples/Relaying.antt =====
-- The voice relay and the two servers together at chosen inputs.
use voiceapp.Base.{
  none-some, Bool-cases, ◌==◌, ==_iff, ℕ, ◌≡◌, ◌≢◌, refl, sym, ◌∙◌, true, false, none, some, List,
  [], ◌∷◌, ok, inl, inr, All, arith, length,
}
use voiceapp.Table.Assoc.{assoc}
use voiceapp.Protocol.Bytes.{IsByte, to_be_bytes}
use voiceapp.Protocol.PacketId.{as_u8}
use voiceapp.Protocol.Packet.{Packet, decode, id, packet_id, voice_data}
use voiceapp.Protocol.Layout.{payload, frame}
use voiceapp.Protocol.RoundTrip.{decode-encode}
use voiceapp.Protocol.Encoding.{encode-fits}
use voiceapp.Server.User.{User}
use voiceapp.Server.Event.{user_connected}
use voiceapp.Server.Session.{VoiceSession}
use voiceapp.Server.Relay
use voiceapp.Server.Relay.{VoiceRelayServer, Turn, event, set_in_voice, handle_event, turn}
use voiceapp.Server.Relay.Forwards.{Hears, Audience, to_each, handle_packet-voice}
use voiceapp.Server.Relay.View.{view, directory}
use voiceapp.Server.Relay.View.Runs.{run-view}
use voiceapp.Server.Management
use voiceapp.Server.Management.{ManagementServer, accept, register_new_user, send_event}
use voiceapp.Server.Management.Reach.{Reachable, IsNumbered, Reachable-IsNumbered}
use voiceapp.Server.Management.Reach
use voiceapp.Server.Management.Agreement.Steps.{Healthy, sessions_agree}
use voiceapp.Server.Management.Agreement.Steps

-- User 1 at the address 50, and user 2 at 60, both in the voice channel.
abbrev talkers : VoiceRelayServer (assoc VoiceSession) (assoc ℕ)
talkers = record {
  sessions =
      (2, record { token = 8; in_voice = true; udp_address = some 60 })
      ∷ (1, record { token = 7; in_voice = true; udp_address = some 50 })
      ∷ [];
  ids_by_addresses = (60, 2) ∷ (50, 1) ∷ [];
  datagrams = [];
}

-- Sound that claims to be another's.
abbrev claim : Packet
claim = voice_data 99 1 960 []

claim_bytes : All IsByte (frame claim)
unfolding frame payload to_be_bytes id packet_id as_u8
claim_bytes = (
  omega arith,
  (
    omega arith,
    (
      omega arith,
      (
        omega arith,
        (
          omega arith,
          (
            omega arith,
            (
              omega arith,
              (
                omega arith,
                (
                  omega arith,
                  (
                    omega arith,
                    (
                      omega arith,
                      (
                        omega arith,
                        (
                          omega arith,
                          (
                            omega arith,
                            (
                              omega arith,
                              (omega arith, (omega arith, (omega arith, (omega arith, tt)))),
                            ),
                          ),
                        ),
                      ),
                    ),
                  ),
                ),
              ),
            ),
          ),
        ),
      ),
    ),
  ),
)

claim_decodes : decode (frame claim) ≡ ok (claim, length (frame claim))
unfolding frame payload to_be_bytes id packet_id as_u8
claim_decodes =
    decode-encode claim (frame claim) [] (omega arith, omega arith, omega arith, tt)
      (encode-fits claim (omega arith))

reachable_as :
    {v s : VoiceSession} {a : ℕ} → some v ≡ some s → v.udp_address ≡ some a → s.udp_address ≢ none
reachable_as e at_a nowhere = absurd (cc)

talkers_reachable :
    (i : ℕ) (s : VoiceSession)
    → Hears (assoc VoiceSession) (assoc ℕ) talkers 1 i s
    → s.udp_address ≢ none
talkers_reachable i s h = elim (Bool-cases (i == 2)) [
  | inl two ↦
      reachable_as {v = record { token = 8; in_voice = true; udp_address = some 60 }} {s = s}
        {a = 60} (sym (rw two) ∙ h.session) refl
  | inr other ↦ elim (Bool-cases (i == 1)) [
    | inl one ↦ absurd (h.other ((==_iff i 1).0 one))
    | inr neither ↦ absurd (none-some (sym (rw (other, neither)) ∙ h.session))
  ]
]

handle_packet-voice_example :
    (addrs : List ℕ) × (Relay.handle_packet (assoc VoiceSession) (assoc ℕ) 50 (frame claim) talkers
      ≡ some (record talkers { datagrams = to_each (frame (voice_data 1 1 960 [])) addrs }))
    × Audience (assoc VoiceSession) (assoc ℕ) talkers 1 addrs
handle_packet-voice_example =
    handle_packet-voice (assoc VoiceSession) (assoc ℕ) talkers 50 99 1 960 (length (frame claim)) 1
      [] (frame claim) claim_bytes claim_decodes refl talkers_reachable

-- The relay after an event.
abbrev relayed : VoiceRelayServer (assoc VoiceSession) (assoc ℕ)
relayed = record {
  sessions = (1, record { token = 77; in_voice = false; udp_address = none }) ∷ [];
  ids_by_addresses = [];
  datagrams = [];
}

run-view_example :
    view (assoc VoiceSession) (assoc ℕ) relayed 1
    ≡ directory (user_connected 1 77 ∷ []) (λ i. none) 1
unfolding Relay.new Relay.run turn handle_event
run-view_example =
    run-view (assoc VoiceSession) (assoc ℕ) (event (user_connected 1 77) ∷ []) relayed refl 1

-- The management server after one connection.
abbrev one_user : ManagementServer (assoc User)
one_user = accept (assoc User) 10 77 (Management.new (assoc User))

abbrev first_user : User
first_user = record { id = 1; username = none; in_voice = false; is_muted = false; token = 77 }

Reachable-IsNumbered_example : IsNumbered (assoc User) 1 one_user
Reachable-IsNumbered_example =
    Reachable-IsNumbered (assoc User) (Reach.accepts Reach.starts 10 77) (omega arith)

sessions_agree_example : view (assoc VoiceSession) (assoc ℕ) relayed 1 ≡ some (77, false)
unfolding Relay.new Relay.run turn handle_event accept register_new_user send_event Management.new
sessions_agree_example =
    sessions_agree (assoc User) (assoc VoiceSession) (assoc ℕ) 1 one_user
      (event (user_connected 1 77) ∷ []) relayed 10 first_user (Steps.accepts Steps.starts 10 77)
      (omega arith) refl refl refl
