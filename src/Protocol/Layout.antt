-- ===== src/Protocol/Layout.antt =====
-- The wire format as protocol/README.md and the comments of protocol/src/packet.rs describe it,
-- with no writer and no reader: what `encode` and `decode` are measured by.
use voiceapp.Base.{
  ℕ, ◌^◌, ◌<◌, ◌≡◌, true, Option, none, some, List, [], ◌∷◌, ◌++◌, ltb, if◌then◌else◌, length, All,
}
use voiceapp.Protocol.Bytes.{IsByte, to_be_bytes}
use voiceapp.Protocol.Utf8.{is_utf8}
use voiceapp.Protocol.Writer.{from_bool}
use voiceapp.Protocol.Writer.Emits.{string_bytes}
use voiceapp.Protocol.Packet.{
  ParticipantInfo, Packet, id, login_request, voice_auth_request, join_voice_channel_request,
  leave_voice_channel_request, chat_message_request, ping_request, login_response,
  voice_auth_response, join_voice_channel_response, leave_voice_channel_response,
  chat_message_response, ping_response, user_joined_server, user_joined_voice, user_left_voice,
  user_left_server, user_sent_message, user_mute_state, voice_data,
}

abbrev pub u64_bytes : ℕ → List ℕ
u64_bytes = to_be_bytes 8

unfoldable pub participant_bytes : ParticipantInfo → List ℕ
participant_bytes p =
    u64_bytes p.user_id
    ++ (string_bytes p.username ++ ((from_bool p.in_voice ∷ []) ++ (from_bool p.is_muted ∷ [])))

unfoldable pub participants_bytes : List ParticipantInfo → List ℕ
participants_bytes [] = []
participants_bytes (p ∷ ps) = participant_bytes p ++ participants_bytes ps

unfoldable pub payload : Packet → List ℕ
payload (login_request r username) = u64_bytes r ++ string_bytes username
payload (voice_auth_request r token) = u64_bytes r ++ u64_bytes token
payload (join_voice_channel_request r) = u64_bytes r
payload (leave_voice_channel_request r) = u64_bytes r
payload (chat_message_request r message) = u64_bytes r ++ string_bytes message
payload (ping_request r) = u64_bytes r
payload (login_response r i token ps) =
    u64_bytes r
    ++ (u64_bytes i ++ (u64_bytes token ++ (to_be_bytes 2 (length ps) ++ participants_bytes ps)))
payload (voice_auth_response r success) = u64_bytes r ++ (from_bool success ∷ [])
payload (join_voice_channel_response r success) = u64_bytes r ++ (from_bool success ∷ [])
payload (leave_voice_channel_response r success) = u64_bytes r ++ (from_bool success ∷ [])
payload (chat_message_response r success) = u64_bytes r ++ (from_bool success ∷ [])
payload (ping_response r) = u64_bytes r
payload (user_joined_server p) = participant_bytes p
payload (user_joined_voice u) = u64_bytes u
payload (user_left_voice u) = u64_bytes u
payload (user_left_server u) = u64_bytes u
payload (user_sent_message u timestamp message) =
    u64_bytes u ++ (u64_bytes timestamp ++ string_bytes message)
payload (user_mute_state u is_muted) = u64_bytes u ++ (from_bool is_muted ∷ [])
payload (voice_data u sequence timestamp opus_frame) =
    u64_bytes u ++ (to_be_bytes 4 sequence ++ (to_be_bytes 4 timestamp ++ opus_frame))

unfoldable pub frame : Packet → List ℕ
frame p = id p ∷ to_be_bytes 2 (length (payload p)) ++ payload p

-- The largest payload has 65535 bytes.
abbrev pub max_payload : ℕ
max_payload = 2 ^ 16

abbrev pub IsText : List ℕ → Type 0
IsText s = All IsByte s × (is_utf8 s ≡ true)

abbrev pub IsU64 : ℕ → Type 0
IsU64 v = v < 2 ^ 64

abbrev pub IsU32 : ℕ → Type 0
IsU32 v = v < 2 ^ 32

pub record IsParticipant (p : ParticipantInfo) : Type 0 where
  pub user_id : IsU64 p.user_id
  pub username : IsText p.username

-- The fields are in the range of their Rust types, and a `String` is UTF-8.
abbrev pub IsWire : Packet → Type 0
IsWire (login_request r username) = IsU64 r × IsText username
IsWire (voice_auth_request r token) = IsU64 r × IsU64 token
IsWire (join_voice_channel_request r) = IsU64 r
IsWire (leave_voice_channel_request r) = IsU64 r
IsWire (chat_message_request r message) = IsU64 r × IsText message
IsWire (ping_request r) = IsU64 r
IsWire (login_response r i token ps) = IsU64 r × IsU64 i × IsU64 token × All IsParticipant ps
IsWire (voice_auth_response r success) = IsU64 r
IsWire (join_voice_channel_response r success) = IsU64 r
IsWire (leave_voice_channel_response r success) = IsU64 r
IsWire (chat_message_response r success) = IsU64 r
IsWire (ping_response r) = IsU64 r
IsWire (user_joined_server p) = IsParticipant p
IsWire (user_joined_voice u) = IsU64 u
IsWire (user_left_voice u) = IsU64 u
IsWire (user_left_server u) = IsU64 u
IsWire (user_sent_message u timestamp message) = IsU64 u × IsU64 timestamp × IsText message
IsWire (user_mute_state u is_muted) = IsU64 u
IsWire (voice_data u sequence timestamp opus_frame) =
    IsU64 u × IsU32 sequence × IsU32 timestamp × All IsByte opus_frame

-- What `encode` is to return.
abbrev pub frame? : Packet → Option (List ℕ)
frame? p = if ltb (length (payload p)) max_payload then some (frame p) else none
