-- ===== src/Protocol/Packet/Types.antt =====
-- protocol/src/packet.rs: the data types and the methods `id` and `request_id`.
use voiceapp.Base.{ℕ, Bool, Option, none, some, List}
use voiceapp.Protocol.PacketId.{PacketId, as_u8}

pub record ParticipantInfo : Type 0 where
  pub user_id : ℕ
  pub username : List ℕ
  pub in_voice : Bool
  pub is_muted : Bool

pub data Packet : Type 0 where
  login_request : (request_id : ℕ) (username : List ℕ) → Packet
  voice_auth_request : (request_id voice_token : ℕ) → Packet
  join_voice_channel_request : (request_id : ℕ) → Packet
  leave_voice_channel_request : (request_id : ℕ) → Packet
  chat_message_request : (request_id : ℕ) (message : List ℕ) → Packet
  ping_request : (request_id : ℕ) → Packet
  login_response : (request_id id voice_token : ℕ) (participants : List ParticipantInfo) → Packet
  voice_auth_response : (request_id : ℕ) (success : Bool) → Packet
  join_voice_channel_response : (request_id : ℕ) (success : Bool) → Packet
  leave_voice_channel_response : (request_id : ℕ) (success : Bool) → Packet
  chat_message_response : (request_id : ℕ) (success : Bool) → Packet
  ping_response : (request_id : ℕ) → Packet
  user_joined_server : (participant : ParticipantInfo) → Packet
  user_joined_voice : (user_id : ℕ) → Packet
  user_left_voice : (user_id : ℕ) → Packet
  user_left_server : (user_id : ℕ) → Packet
  user_sent_message : (user_id timestamp : ℕ) (message : List ℕ) → Packet
  user_mute_state : (user_id : ℕ) (is_muted : Bool) → Packet
  voice_data : (user_id sequence timestamp : ℕ) (opus_frame : List ℕ) → Packet

unfoldable pub packet_id : Packet → PacketId
packet_id (login_request _ _) = PacketId.login_request
packet_id (voice_auth_request _ _) = PacketId.voice_auth_request
packet_id (join_voice_channel_request _) = PacketId.join_voice_channel_request
packet_id (leave_voice_channel_request _) = PacketId.leave_voice_channel_request
packet_id (chat_message_request _ _) = PacketId.chat_message_request
packet_id (ping_request _) = PacketId.ping_request
packet_id (login_response _ _ _ _) = PacketId.login_response
packet_id (voice_auth_response _ _) = PacketId.voice_auth_response
packet_id (join_voice_channel_response _ _) = PacketId.join_voice_channel_response
packet_id (leave_voice_channel_response _ _) = PacketId.leave_voice_channel_response
packet_id (chat_message_response _ _) = PacketId.chat_message_response
packet_id (ping_response _) = PacketId.ping_response
packet_id (user_joined_server _) = PacketId.user_joined_server
packet_id (user_joined_voice _) = PacketId.user_joined_voice
packet_id (user_left_voice _) = PacketId.user_left_voice
packet_id (user_left_server _) = PacketId.user_left_server
packet_id (user_sent_message _ _ _) = PacketId.user_sent_message
packet_id (user_mute_state _ _) = PacketId.user_mute_state
packet_id (voice_data _ _ _ _) = PacketId.voice_data

unfoldable pub id : Packet → ℕ
unfolding packet_id as_u8
id p = as_u8 (packet_id p)

unfoldable pub request_id : Packet → Option ℕ
request_id (login_request r _) = some r
request_id (voice_auth_request r _) = some r
request_id (join_voice_channel_request r) = some r
request_id (leave_voice_channel_request r) = some r
request_id (chat_message_request r _) = some r
request_id (ping_request r) = some r
request_id (login_response r _ _ _) = some r
request_id (voice_auth_response r _) = some r
request_id (join_voice_channel_response r _) = some r
request_id (leave_voice_channel_response r _) = some r
request_id (chat_message_response r _) = some r
request_id (ping_response r) = some r
request_id _ = none
