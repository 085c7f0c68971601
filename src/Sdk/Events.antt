-- ===== src/Sdk/Events.antt =====
-- sdk/src/network/event_handler.rs: the events that the client's user sees. A send on the channel
-- of events that fails is only logged, so the channel is a log.
use voiceapp.Base.{ℕ, Bool, List, [], ◌∷◌, ◌++◌}
use voiceapp.Protocol.Packet.{
  ParticipantInfo, Packet, login_response, user_joined_server, user_joined_voice, user_left_voice,
  user_left_server, user_sent_message, user_mute_state,
}

pub data ClientEvent : Type 0 where
  participants_list : (user_id : ℕ) → List ParticipantInfo → ClientEvent
  joined_server : (user_id : ℕ) (username : List ℕ) → ClientEvent
  joined_voice left_voice left_server : (user_id : ℕ) → ClientEvent
  sent_message : (user_id timestamp : ℕ) (message : List ℕ) → ClientEvent
  mute_state : (user_id : ℕ) (is_muted : Bool) → ClientEvent

abbrev pub emit : ClientEvent → List ClientEvent → List ClientEvent
emit e sent = sent ++ (e ∷ [])

unfoldable pub handle_packet : Packet → List ClientEvent → List ClientEvent
handle_packet (login_response _ id _ participants) sent =
    emit (participants_list id participants) sent
handle_packet (user_joined_server participant) sent =
    emit (joined_server participant.user_id participant.username) sent
handle_packet (user_left_server user_id) sent = emit (left_server user_id) sent
handle_packet (user_joined_voice user_id) sent = emit (joined_voice user_id) sent
handle_packet (user_left_voice user_id) sent = emit (left_voice user_id) sent
handle_packet (user_sent_message user_id timestamp message) sent =
    emit (sent_message user_id timestamp message) sent
handle_packet (user_mute_state user_id is_muted) sent = emit (mute_state user_id is_muted) sent
handle_packet _ sent = sent

-- `listen_to_packets`, over the packets that come until the channel is closed.
unfoldable pub listen_to_packets : List Packet → List ClientEvent → List ClientEvent
listen_to_packets [] sent = sent
listen_to_packets (p ∷ ps) sent = listen_to_packets ps (handle_packet p sent)
