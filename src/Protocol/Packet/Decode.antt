-- ===== src/Protocol/Packet/Decode.antt =====
-- protocol/src/packet.rs: `ParticipantInfo::read` and `Packet::decode`.
use voiceapp.Base.{
  ℕ, zero, suc, ◌+◌, List, [], ◌∷◌, ltb, if◌then◌else◌, length, take, Result, ok, err,
}
use voiceapp.Protocol.Error.{ProtocolError, incomplete_payload}
use voiceapp.Protocol.PacketId.{PacketId, try_from}
use voiceapp.Protocol.Reader.{
  Reader, Read, ◌>>=◌, pure, read_u8, read_u16, read_u32, read_u64, read_bool, read_string,
  remaining,
}
use voiceapp.Protocol.Reader
use voiceapp.Protocol.Packet.Types.{
  ParticipantInfo, Packet, login_request, voice_auth_request, join_voice_channel_request,
  leave_voice_channel_request, chat_message_request, ping_request, login_response,
  voice_auth_response, join_voice_channel_response, leave_voice_channel_response,
  chat_message_response, ping_response, user_joined_server, user_joined_voice, user_left_voice,
  user_left_server, user_sent_message, user_mute_state, voice_data,
}

unfoldable pub read_participant : Read ParticipantInfo
read_participant = do
  user_id ← read_u64
  username ← read_string
  in_voice ← read_bool
  is_muted ← read_bool
  pure (record { user_id = user_id; username = username; in_voice = in_voice; is_muted = is_muted })

-- The loop over `0..count`.
unfoldable pub read_participants : ℕ → Read (List ParticipantInfo)
read_participants zero = pure []
read_participants (suc count) = do p ← read_participant; ps ← read_participants count; pure (p ∷ ps)

-- `r.remaining().to_vec()`
unfoldable pub read_remaining : Read (List ℕ)
read_remaining r = ok (remaining r, r)

-- The `match` of `decode`.
unfoldable pub read_payload : PacketId → Read Packet
read_payload PacketId.login_request = do
  request_id ← read_u64
  username ← read_string
  pure (login_request request_id username)
read_payload PacketId.voice_auth_request = do
  request_id ← read_u64
  voice_token ← read_u64
  pure (voice_auth_request request_id voice_token)
read_payload PacketId.join_voice_channel_request = do
  request_id ← read_u64
  pure (join_voice_channel_request request_id)
read_payload PacketId.leave_voice_channel_request = do
  request_id ← read_u64
  pure (leave_voice_channel_request request_id)
read_payload PacketId.chat_message_request = do
  request_id ← read_u64
  message ← read_string
  pure (chat_message_request request_id message)
read_payload PacketId.ping_request = do request_id ← read_u64; pure (ping_request request_id)
read_payload PacketId.login_response = do
  request_id ← read_u64
  id ← read_u64
  voice_token ← read_u64
  count ← read_u16
  participants ← read_participants count
  pure (login_response request_id id voice_token participants)
read_payload PacketId.voice_auth_response = do
  request_id ← read_u64
  success ← read_bool
  pure (voice_auth_response request_id success)
read_payload PacketId.join_voice_channel_response = do
  request_id ← read_u64
  success ← read_bool
  pure (join_voice_channel_response request_id success)
read_payload PacketId.leave_voice_channel_response = do
  request_id ← read_u64
  success ← read_bool
  pure (leave_voice_channel_response request_id success)
read_payload PacketId.chat_message_response = do
  request_id ← read_u64
  success ← read_bool
  pure (chat_message_response request_id success)
read_payload PacketId.ping_response = do request_id ← read_u64; pure (ping_response request_id)
read_payload PacketId.user_joined_server = do
  participant ← read_participant
  pure (user_joined_server participant)
read_payload PacketId.user_joined_voice = do user_id ← read_u64; pure (user_joined_voice user_id)
read_payload PacketId.user_left_voice = do user_id ← read_u64; pure (user_left_voice user_id)
read_payload PacketId.user_left_server = do user_id ← read_u64; pure (user_left_server user_id)
read_payload PacketId.user_sent_message = do
  user_id ← read_u64
  timestamp ← read_u64
  message ← read_string
  pure (user_sent_message user_id timestamp message)
read_payload PacketId.user_mute_state = do
  user_id ← read_u64
  is_muted ← read_bool
  pure (user_mute_state user_id is_muted)
read_payload PacketId.voice_data = do
  user_id ← read_u64
  sequence ← read_u32
  timestamp ← read_u32
  opus_frame ← read_remaining
  pure (voice_data user_id sequence timestamp opus_frame)

-- `PacketId::try_from(value)?`
unfoldable pub to_packet_id : ℕ → Read PacketId
to_packet_id value r = elim (try_from value) [ ok i ↦ ok (i, r) | err e ↦ err e ]

-- The header: the identifier and the declared length.
unfoldable pub read_header : Read (PacketId × ℕ)
read_header = do
  value ← read_u8
  packet_id ← to_packet_id value
  payload_len ← read_u16
  pure (packet_id, payload_len)

-- What follows the header, where `header` is its reader.
unfoldable pub decode_payload : PacketId → ℕ → Reader → Result (Packet × ℕ) ProtocolError
decode_payload packet_id payload_len header =
    if ltb (length (remaining header)) payload_len
    then err (incomplete_payload payload_len (length (remaining header)))
    else elim (read_payload packet_id (Reader.new (take payload_len (remaining header)))) [
      | ok (packet, r) ↦ ok (packet, header.pos + payload_len)
      | err e ↦ err e
    ]

unfoldable pub decode : List ℕ → Result (Packet × ℕ) ProtocolError
decode buf = elim (read_header (Reader.new buf)) [
  | ok ((packet_id, payload_len), header) ↦ decode_payload packet_id payload_len header
  | err e ↦ err e
]
