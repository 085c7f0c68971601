-- ===== src/Protocol/Packet/Encode.antt =====
-- protocol/src/packet.rs: `ParticipantInfo::write` and `Packet::encode`.
use voiceapp.Base.{ℕ, ◌-◌, Option, none, some, List, [], ◌∷◌, length}
use voiceapp.Protocol.Writer.{
  Writer, Write, ◌>>◌, done, write_u8, write_u16, write_u32, write_u64, write_bool, write_string,
  write_bytes, with_u16, position, reserve_u16, write_u16_at,
}
use voiceapp.Protocol.Writer
use voiceapp.Protocol.Packet.Types.{
  ParticipantInfo, Packet, id, login_request, voice_auth_request, join_voice_channel_request,
  leave_voice_channel_request, chat_message_request, ping_request, login_response,
  voice_auth_response, join_voice_channel_response, leave_voice_channel_response,
  chat_message_response, ping_response, user_joined_server, user_joined_voice, user_left_voice,
  user_left_server, user_sent_message, user_mute_state, voice_data,
}

unfoldable pub write_participant : ParticipantInfo → Write
write_participant p = do
  write_u64 p.user_id
  write_string p.username
  write_bool p.in_voice
  write_bool p.is_muted

unfoldable pub write_participants : List ParticipantInfo → Write
write_participants [] = done
write_participants (p ∷ ps) = do write_participant p; write_participants ps

-- The `match` of `encode`.
unfoldable pub write_payload : Packet → Write
write_payload (login_request request_id username) = do write_u64 request_id; write_string username
write_payload (voice_auth_request request_id voice_token) = do
  write_u64 request_id
  write_u64 voice_token
write_payload (join_voice_channel_request request_id) = write_u64 request_id
write_payload (leave_voice_channel_request request_id) = write_u64 request_id
write_payload (chat_message_request request_id message) = do
  write_u64 request_id
  write_string message
write_payload (ping_request request_id) = write_u64 request_id
write_payload (login_response request_id id voice_token participants) = do
  write_u64 request_id
  write_u64 id
  write_u64 voice_token
  with_u16 (length participants) write_u16
  write_participants participants
write_payload (voice_auth_response request_id success) = do write_u64 request_id; write_bool success
write_payload (join_voice_channel_response request_id success) = do
  write_u64 request_id
  write_bool success
write_payload (leave_voice_channel_response request_id success) = do
  write_u64 request_id
  write_bool success
write_payload (chat_message_response request_id success) = do
  write_u64 request_id
  write_bool success
write_payload (ping_response request_id) = write_u64 request_id
write_payload (user_joined_server participant) = write_participant participant
write_payload (user_joined_voice user_id) = write_u64 user_id
write_payload (user_left_voice user_id) = write_u64 user_id
write_payload (user_left_server user_id) = write_u64 user_id
write_payload (user_mute_state user_id is_muted) = do write_u64 user_id; write_bool is_muted
write_payload (user_sent_message user_id timestamp message) = do
  write_u64 user_id
  write_u64 timestamp
  write_string message
write_payload (voice_data user_id sequence timestamp opus_frame) = do
  write_u64 user_id
  write_u32 sequence
  write_u32 timestamp
  write_bytes opus_frame

-- The length goes to the place that was reserved, and the buffer is handed out.
unfoldable pub patch_length : ℕ → ℕ → Writer → Option (List ℕ)
patch_length len_pos payload_start w =
    elim (with_u16 (position w - payload_start) (write_u16_at len_pos) w) [
      | none ↦ none
      | some w' ↦ some w'.buf
    ]

unfoldable pub reserve_and_write : Packet → Writer → Option (List ℕ)
reserve_and_write p w =
    let (len_pos, w') = reserve_u16 w in
    elim (write_payload p w') [ none ↦ none | some w'' ↦ patch_length len_pos (position w') w'' ]

-- `none` is a panic.
unfoldable pub encode : Packet → Option (List ℕ)
encode p = elim (write_u8 (id p) Writer.new) [ none ↦ none | some w ↦ reserve_and_write p w ]
