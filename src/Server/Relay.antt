-- ===== src/Server/Relay.antt =====
-- server/src/voice/server.rs: the voice relay. `none` is a panic of its task. The datagrams that it
-- sends are a log of addresses with their bytes; the code only logs a failed send.
pub mod Forwards
pub mod View
use voiceapp.Base.{
  ℕ, ◌==◌, Bool, true, false, not, ◌&&◌, Option, none, some, List, [], ◌∷◌, ◌++◌, map,
  if◌then◌else◌, filter_map, Result, ok, err,
}
use voiceapp.Table.{Table}
use voiceapp.Protocol.Packet.{
  Packet, encode, decode, voice_auth_request, voice_auth_response, voice_data,
}
use voiceapp.Server.Event.{Event, user_connected, voice_joined, voice_left, user_disconnected}
use voiceapp.Server.Session.{VoiceSession}

-- The first entry that passes, as `Iterator::find` gives it.
unfoldable pub find : {A : Type 0} → (A → Bool) → List A → Option A
find test [] = none
find test (x ∷ xs) = let rest = find test xs in if test x then some x else rest

-- The filter of the recipients, with the address that each has, if it has one.
unfoldable pub recipient : ℕ → ℕ × VoiceSession → Option (Option ℕ)
recipient user_id (id, session) =
    if session.in_voice && not (id == user_id) then some session.udp_address else none

-- `unwrap` on each.
unfoldable pub unwrap_all : List (Option ℕ) → Option (List ℕ)
unwrap_all [] = some []
unwrap_all (none ∷ rest) = none
unwrap_all (some a ∷ rest) = elim (unwrap_all rest) [ none ↦ none | some addrs ↦ some (a ∷ addrs) ]

module _ (ts : Table VoiceSession) (ta : Table ℕ) where
  pub record VoiceRelayServer : Type 0 where
    pub sessions : ts.Map
    pub ids_by_addresses : ta.Map
    pub datagrams : List (ℕ × List ℕ)

  unfoldable pub new : VoiceRelayServer
  new = record { sessions = ts.empty; ids_by_addresses = ta.empty; datagrams = [] }

  -- `if let Some(mut session) = self.sessions.get_mut(&id) { session.in_voice = … }`
  unfoldable pub set_in_voice : ℕ → Bool → VoiceRelayServer → VoiceRelayServer
  set_in_voice id in_voice r = elim (ts.get r.sessions id) [
    | none ↦ r
    | some session ↦ record r {
      sessions = ts.insert r.sessions id (record session { in_voice = in_voice });
    }
  ]

  unfoldable pub forget_address : ℕ → VoiceRelayServer → VoiceRelayServer
  forget_address id r = elim (find (λ e. e.1 == id) (ta.entries r.ids_by_addresses)) [
    | none ↦ r
    | some (address, _) ↦ record r { ids_by_addresses = ta.remove r.ids_by_addresses address }
  ]

  -- The events of the management server, in `run`.
  unfoldable pub handle_event : Event → VoiceRelayServer → VoiceRelayServer
  handle_event (user_connected id token) r = record r {
    sessions =
        ts.insert r.sessions id (record { token = token; in_voice = false; udp_address = none });
  }
  handle_event (voice_joined id) r = set_in_voice id true r
  handle_event (voice_left id) r = set_in_voice id false r
  handle_event (user_disconnected id) r =
      let r' = forget_address id r in record r' { sessions = ts.remove r'.sessions id }

  unfoldable pub send_to : List ℕ → ℕ → VoiceRelayServer → VoiceRelayServer
  send_to bytes addr r = record r { datagrams = r.datagrams ++ ((addr, bytes) ∷ []) }

  -- `for addr in recipients`
  unfoldable pub send_to_all : List ℕ → List ℕ → VoiceRelayServer → VoiceRelayServer
  send_to_all bytes [] r = r
  send_to_all bytes (addr ∷ addrs) r = send_to_all bytes addrs (send_to bytes addr r)

  unfoldable pub forward_voice_packet :
      (user_id sequence timestamp : ℕ) → List ℕ → VoiceRelayServer → Option VoiceRelayServer
  forward_voice_packet user_id sequence timestamp bytes r =
      elim (encode (voice_data user_id sequence timestamp bytes)) [
        | none ↦ none
        | some encoded_packet ↦
            elim (unwrap_all (filter_map (recipient user_id) (ts.entries r.sessions))) [
              | none ↦ none
              | some recipients ↦ some (send_to_all encoded_packet recipients r)
            ]
      ]

  unfoldable pub authenticate :
      (src_addr user_id : ℕ)
      → VoiceSession
      → (request_id voice_token : ℕ) → VoiceRelayServer
      → Option VoiceRelayServer
  authenticate src_addr user_id session request_id voice_token r =
      let token_valid = session.token == voice_token in
      let r' =
        if token_valid
        then record r {
          sessions = ts.insert r.sessions user_id (record session { udp_address = some src_addr });
          ids_by_addresses = ta.insert r.ids_by_addresses src_addr user_id;
        }
        else r in
      elim (encode (voice_auth_response request_id token_valid)) [
        | none ↦ none
        | some response_data ↦ some (send_to response_data src_addr r')
      ]

  unfoldable pub handle_decoded : ℕ → Packet → VoiceRelayServer → Option VoiceRelayServer
  handle_decoded src_addr (voice_auth_request request_id voice_token) r =
      elim (find (λ e. e.1.token == voice_token) (ts.entries r.sessions)) [
        | none ↦ some r
        | some (user_id, session) ↦ authenticate src_addr user_id session request_id voice_token r
      ]
  handle_decoded src_addr (voice_data _ sequence timestamp bytes) r =
      elim (ta.get r.ids_by_addresses src_addr) [
        | none ↦ some r
        | some user_id ↦ forward_voice_packet user_id sequence timestamp bytes r
      ]
  handle_decoded src_addr _ r = some r

  unfoldable pub handle_packet : ℕ → List ℕ → VoiceRelayServer → Option VoiceRelayServer
  handle_packet src_addr packet_data r = elim (decode packet_data) [
    | ok (packet, _) ↦ handle_decoded src_addr packet r
    | err _ ↦ some r
  ]

  -- The turns of `run`: a datagram or an event.
  pub data Turn : Type 0 where
    datagram : (src_addr : ℕ) (packet_data : List ℕ) → Turn
    event : Event → Turn

  unfoldable pub turn : Turn → VoiceRelayServer → Option VoiceRelayServer
  turn (datagram src_addr packet_data) r = handle_packet src_addr packet_data r
  turn (event e) r = some (handle_event e r)

  unfoldable pub run : List Turn → VoiceRelayServer → Option VoiceRelayServer
  run [] r = some r
  run (x ∷ xs) r = elim (turn x r) [ none ↦ none | some r' ↦ run xs r' ]
