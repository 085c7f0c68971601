-- ===== src/Server/Handler.antt =====
-- server/src/management/handler.rs: what the task of a connection does with a packet, with a
-- broadcast message and at the end.
pub mod Keeps
pub mod Quiet
pub mod Login
pub mod Answers
use voiceapp.Base.{
  ℕ, zero, suc, ◌||◌, Bool, true, false, Option, none, some, List, [], if◌then◌else◌, ltb, length,
  filter_map, Run, done, failed, panicked,
}
use voiceapp.Base.Runs.{◌>>=◌, ◌>>◌, pure}
use voiceapp.Table.{Table}
use voiceapp.Protocol.Packet.{
  ParticipantInfo, Packet, login_request, join_voice_channel_request, leave_voice_channel_request,
  chat_message_request, ping_request, login_response, join_voice_channel_response,
  leave_voice_channel_response, chat_message_response, ping_response, user_joined_server,
  user_joined_voice, user_left_voice, user_left_server, user_sent_message, user_mute_state,
}
use voiceapp.Server.Error.{ServerError}
use voiceapp.Server.User.{User}
use voiceapp.Server.Event.{voice_joined, voice_left}
use voiceapp.Server.Broadcast.{BroadcastMessage, for_all, excluding, should_send_to}
use voiceapp.Server.Config.{max_username_len}
use voiceapp.Server.World.{World, Handler, write_all, respond, send_event, broadcast, change_user}

-- The filter and the map of the list of participants: a user without a name is no participant.
unfoldable pub participant : ℕ × User → Option ParticipantInfo
participant (address, u) = elim u.username [
  | none ↦ none
  | some username ↦
      some (record {
        user_id = u.id;
        username = username;
        in_voice = u.in_voice;
        is_muted = u.is_muted;
      })
]

module _ (t : Table User) where
  unfoldable pub participants : t.Map → List ParticipantInfo
  participants users = filter_map participant (t.entries users)

  unfoldable pub handle_broadcast_message : ℕ → BroadcastMessage → Handler t (Unit {0})
  handle_broadcast_message address message =
      if should_send_to message address then write_all t message.data_ else pure tt

  unfoldable pub is_refused : List ℕ → Bool
  is_refused username = (ltb (length username) 1) || ltb max_username_len (length username)

  -- The answer with the participants at the time it is made.
  unfoldable pub respond_login : ℕ → User → Handler t (Unit {0})
  respond_login request_id user w =
      respond t (login_response request_id user.id user.token (participants w.users)) w

  unfoldable pub accept_login : ℕ → ℕ → List ℕ → Handler t (Unit {0})
  accept_login address request_id username =
      change_user t address (λ user. record user { username = some username }) >>= λ user.
      respond_login request_id user
      >> broadcast t (
          excluding address (
            user_joined_server (record {
              user_id = user.id;
              username = username;
              in_voice = false;
              is_muted = false;
            })))

  unfoldable pub handle_login_request : ℕ → ℕ → List ℕ → Handler t (Unit {0})
  handle_login_request address request_id username =
      if is_refused username
      then respond t (login_response request_id 0 0 [])
      else accept_login address request_id username

  unfoldable pub handle_join_voice_channel_request : ℕ → ℕ → Handler t (Unit {0})
  handle_join_voice_channel_request address request_id = do
    user ← change_user t address (λ user. record user { in_voice = true; is_muted = false })
    respond t (join_voice_channel_response request_id true)
    send_event t (voice_joined user.id)
    broadcast t (excluding address (user_joined_voice user.id))

  unfoldable pub handle_leave_voice_channel_request : ℕ → ℕ → Handler t (Unit {0})
  handle_leave_voice_channel_request address request_id = do
    user ← change_user t address (λ user. record user { in_voice = false; is_muted = false })
    respond t (leave_voice_channel_response request_id true)
    send_event t (voice_left user.id)
    broadcast t (excluding address (user_left_voice user.id))

  -- The time is read when the message is made.
  unfoldable pub broadcast_message : ℕ → List ℕ → Handler t (Unit {0})
  broadcast_message user_id message w =
      broadcast t (for_all (user_sent_message user_id w.clock message)) w

  -- The source only looks the user up: here it is put back as it was.
  unfoldable pub handle_chat_message_request : ℕ → ℕ → List ℕ → Handler t (Unit {0})
  handle_chat_message_request address request_id message = do
    user ← change_user t address (λ user. user)
    respond t (chat_message_response request_id true)
    broadcast_message user.id message

  unfoldable pub handle_ping_request : ℕ → Handler t (Unit {0})
  handle_ping_request request_id = respond t (ping_response request_id)

  unfoldable pub handle_user_mute_state : ℕ → ℕ → Bool → Handler t (Unit {0})
  handle_user_mute_state address user_id is_muted = do
    user ← change_user t address (λ user. record user { is_muted = is_muted })
    broadcast t (excluding address (user_mute_state user_id is_muted))

  unfoldable pub handle_packet : ℕ → Packet → Handler t (Unit {0})
  handle_packet address (login_request request_id username) =
      handle_login_request address request_id username
  handle_packet address (join_voice_channel_request request_id) =
      handle_join_voice_channel_request address request_id
  handle_packet address (leave_voice_channel_request request_id) =
      handle_leave_voice_channel_request address request_id
  handle_packet address (chat_message_request request_id message) =
      handle_chat_message_request address request_id message
  handle_packet address (ping_request request_id) = handle_ping_request request_id
  handle_packet address (user_mute_state user_id is_muted) =
      handle_user_mute_state address user_id is_muted
  handle_packet address _ = pure tt

  -- What is announced when a user is gone.
  unfoldable pub announce_left : User → Handler t (Unit {0})
  announce_left user =
      broadcast t (for_all (user_left_server user.id))
      >> (if user.in_voice then broadcast t (for_all (user_left_voice user.id)) else pure tt)

  unfoldable pub handle_disconnect : ℕ → Handler t (Unit {0})
  handle_disconnect address w = elim (t.get w.users address) [
    | none ↦ done tt (record w { users = t.remove w.users address })
    | some user ↦ announce_left user (record w { users = t.remove w.users address })
  ]
