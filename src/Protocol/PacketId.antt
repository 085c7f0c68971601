-- ===== src/Protocol/PacketId.antt =====
-- protocol/src/packet_id.rs: the enumeration that the macro `packet_ids!` declares.
use voiceapp.Base.{ℕ, ◌≡◌, refl, ◌==◌, if◌then◌else◌, Result, ok, err, arith}
use voiceapp.Protocol.Error.{ProtocolError, unknown_packet_id}

pub data PacketId : Type 0 where
  login_request join_voice_channel_request voice_auth_request : PacketId
  leave_voice_channel_request chat_message_request ping_request : PacketId
  login_response voice_auth_response join_voice_channel_response : PacketId
  leave_voice_channel_response chat_message_response ping_response : PacketId
  user_joined_server user_joined_voice user_left_voice user_left_server : PacketId
  user_sent_message user_mute_state voice_data : PacketId

unfoldable pub as_u8 : PacketId → ℕ
as_u8 login_request = 0x01
as_u8 join_voice_channel_request = 0x02
as_u8 voice_auth_request = 0x03
as_u8 leave_voice_channel_request = 0x04
as_u8 chat_message_request = 0x05
as_u8 ping_request = 0x06
as_u8 login_response = 0x21
as_u8 voice_auth_response = 0x22
as_u8 join_voice_channel_response = 0x23
as_u8 leave_voice_channel_response = 0x24
as_u8 chat_message_response = 0x25
as_u8 ping_response = 0x26
as_u8 user_joined_server = 0x41
as_u8 user_joined_voice = 0x42
as_u8 user_left_voice = 0x43
as_u8 user_left_server = 0x44
as_u8 user_sent_message = 0x45
as_u8 user_mute_state = 0x46
as_u8 voice_data = 0x61

unfoldable pub try_from : ℕ → Result PacketId ProtocolError
try_from value =
    if value == 0x01
    then ok login_request
    else if value == 0x02
    then ok join_voice_channel_request
    else if value == 0x03
    then ok voice_auth_request
    else if value == 0x04
    then ok leave_voice_channel_request
    else if value == 0x05
    then ok chat_message_request
    else if value == 0x06
    then ok ping_request
    else if value == 0x21
    then ok login_response
    else if value == 0x22
    then ok voice_auth_response
    else if value == 0x23
    then ok join_voice_channel_response
    else if value == 0x24
    then ok leave_voice_channel_response
    else if value == 0x25
    then ok chat_message_response
    else if value == 0x26
    then ok ping_response
    else if value == 0x41
    then ok user_joined_server
    else if value == 0x42
    then ok user_joined_voice
    else if value == 0x43
    then ok user_left_voice
    else if value == 0x44
    then ok user_left_server
    else if value == 0x45
    then ok user_sent_message
    else if value == 0x46
    then ok user_mute_state
    else if value == 0x61
    then ok voice_data
    else err (unknown_packet_id value)

-- The byte of an identifier is read as that identifier.
pub try_from-as_u8 : (id : PacketId) → try_from (as_u8 id) ≡ ok id
unfolding try_from as_u8
try_from-as_u8 login_request = refl
try_from-as_u8 _ = refl

-- Only the byte of an identifier is read as that identifier.
pub as_u8-try_from : (value : ℕ) (id : PacketId) → try_from value ≡ ok id → as_u8 id ≡ value
unfolding try_from as_u8
as_u8-try_from value id h = ground arith
