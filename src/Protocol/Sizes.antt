-- ===== src/Protocol/Sizes.antt =====
-- How many bytes a payload takes.
use voiceapp.Base.{ℕ, ◌+◌, ◌≤◌, ◌≡◌, List, [], ◌∷◌, ◌++◌, arith, length, length-append}
use voiceapp.Protocol.Bytes.{to_be_bytes, length-to_be_bytes}
use voiceapp.Protocol.Writer.{from_bool}
use voiceapp.Protocol.Writer.Emits.{string_bytes}
use voiceapp.Protocol.Packet.{
  ParticipantInfo, Packet, login_request, voice_auth_request, join_voice_channel_request,
  leave_voice_channel_request, chat_message_request, ping_request, login_response,
  voice_auth_response, join_voice_channel_response, leave_voice_channel_response,
  chat_message_response, ping_response, user_joined_server, user_joined_voice, user_left_voice,
  user_left_server, user_sent_message, user_mute_state, voice_data,
}
use voiceapp.Protocol.Layout.{participant_bytes, participants_bytes, payload}

unfoldable pub participant_size : ParticipantInfo → ℕ
participant_size p = 12 + length p.username

unfoldable pub participants_size : List ParticipantInfo → ℕ
participants_size [] = 0
participants_size (p ∷ ps) = participant_size p + participants_size ps

unfoldable pub payload_size : Packet → ℕ
unfolding participant_size participants_size
payload_size (login_request r username) = 10 + length username
payload_size (voice_auth_request r token) = 16
payload_size (join_voice_channel_request r) = 8
payload_size (leave_voice_channel_request r) = 8
payload_size (chat_message_request r message) = 10 + length message
payload_size (ping_request r) = 8
payload_size (login_response r i token ps) = 26 + participants_size ps
payload_size (voice_auth_response r success) = 9
payload_size (join_voice_channel_response r success) = 9
payload_size (leave_voice_channel_response r success) = 9
payload_size (chat_message_response r success) = 9
payload_size (ping_response r) = 8
payload_size (user_joined_server p) = participant_size p
payload_size (user_joined_voice u) = 8
payload_size (user_left_voice u) = 8
payload_size (user_left_server u) = 8
payload_size (user_sent_message u timestamp message) = 18 + length message
payload_size (user_mute_state u is_muted) = 9
payload_size (voice_data u sequence timestamp opus_frame) = 16 + length opus_frame

length-word : (n v : ℕ) (bs : List ℕ) → length (to_be_bytes n v ++ bs) ≡ n + length bs
length-word n v bs = omega (arith, length-append (to_be_bytes n v) bs, length-to_be_bytes n v)

pub length-participant_bytes :
    (p : ParticipantInfo) → length (participant_bytes p) ≡ participant_size p
unfolding participant_bytes participant_size
length-participant_bytes p = omega (
  arith,
  length-word 8 p.user_id
      (string_bytes p.username ++ ((from_bool p.in_voice ∷ []) ++ (from_bool p.is_muted ∷ []))),
  length-append (string_bytes p.username)
      ((from_bool p.in_voice ∷ []) ++ (from_bool p.is_muted ∷ [])),
  length-word 2 (length p.username) p.username,
)

pub length-participants_bytes :
    (ps : List ParticipantInfo) → length (participants_bytes ps) ≡ participants_size ps
unfolding participants_bytes participants_size
length-participants_bytes [] = omega arith
length-participants_bytes (p ∷ ps) = omega (
  arith,
  length-append (participant_bytes p) (participants_bytes ps),
  length-participant_bytes p,
  length-participants_bytes ps,
)

-- Each participant takes a byte at least.
pub count-le : (ps : List ParticipantInfo) → length ps ≤ length (participants_bytes ps)
unfolding participants_bytes participant_size
count-le [] = omega arith
count-le (p ∷ ps) = omega (
  arith,
  count-le ps,
  length-append (participant_bytes p) (participants_bytes ps),
  length-participant_bytes p,
)

pub length-payload : (p : Packet) → length (payload p) ≡ payload_size p
unfolding payload payload_size
length-payload (login_request r username) =
    omega (arith, length-word 8 r (string_bytes username), length-word 2 (length username) username)
length-payload (voice_auth_request r token) =
    omega (arith, length-word 8 r (to_be_bytes 8 token), length-to_be_bytes 8 token)
length-payload (chat_message_request r message) =
    omega (arith, length-word 8 r (string_bytes message), length-word 2 (length message) message)
length-payload (login_response r i token ps) = omega (
  arith,
  length-word 8 r (
      to_be_bytes 8 i
      ++ (to_be_bytes 8 token ++ (to_be_bytes 2 (length ps) ++ participants_bytes ps))),
  length-word 8 i (to_be_bytes 8 token ++ (to_be_bytes 2 (length ps) ++ participants_bytes ps)),
  length-word 8 token (to_be_bytes 2 (length ps) ++ participants_bytes ps),
  length-word 2 (length ps) (participants_bytes ps),
  length-participants_bytes ps,
)
length-payload (user_joined_server p) = length-participant_bytes p
length-payload (user_sent_message u timestamp message) = omega (
  arith,
  length-word 8 u (to_be_bytes 8 timestamp ++ string_bytes message),
  length-word 8 timestamp (string_bytes message),
  length-word 2 (length message) message,
)
length-payload (voice_data u sequence timestamp opus_frame) = omega (
  arith,
  length-word 8 u (to_be_bytes 4 sequence ++ (to_be_bytes 4 timestamp ++ opus_frame)),
  length-word 4 sequence (to_be_bytes 4 timestamp ++ opus_frame),
  length-word 4 timestamp opus_frame,
)
length-payload (voice_auth_response r success) = length-word 8 r (from_bool success ∷ [])
length-payload (join_voice_channel_response r success) = length-word 8 r (from_bool success ∷ [])
length-payload (leave_voice_channel_response r success) = length-word 8 r (from_bool success ∷ [])
length-payload (chat_message_response r success) = length-word 8 r (from_bool success ∷ [])
length-payload (user_mute_state r success) = length-word 8 r (from_bool success ∷ [])
length-payload (join_voice_channel_request r) = length-to_be_bytes 8 r
length-payload (leave_voice_channel_request r) = length-to_be_bytes 8 r
length-payload (ping_request r) = length-to_be_bytes 8 r
length-payload (ping_response r) = length-to_be_bytes 8 r
length-payload (user_joined_voice r) = length-to_be_bytes 8 r
length-payload (user_left_voice r) = length-to_be_bytes 8 r
length-payload (user_left_server r) = length-to_be_bytes 8 r
