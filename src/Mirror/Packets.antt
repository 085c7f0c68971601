-- ===== src/Mirror/Packets.antt =====
-- What the rooms of the others hear of what a connection handles, and of its end.
use voiceapp.Base.{
  ℕ, ◌≡◌, ◌≢◌, refl, ap, ◌∙◌, Bool, true, false, none, some, List, [], ◌∷◌, ◌++◌, append_assoc,
  if◌then◌else◌, arith,
}
use voiceapp.Base.Runs.{pure}
use voiceapp.Table.{Table}
use voiceapp.Protocol.Packet.{
  Packet, encode, login_request, voice_auth_request, join_voice_channel_request,
  leave_voice_channel_request, chat_message_request, ping_request, login_response,
  voice_auth_response, join_voice_channel_response, leave_voice_channel_response,
  chat_message_response, ping_response, user_joined_server, user_joined_voice, user_left_voice,
  user_left_server, user_sent_message, user_mute_state, voice_data,
}
use voiceapp.Server.User.{User}
use voiceapp.Server.Broadcast.{for_all}
use voiceapp.Server.World.{World, broadcast, respond}
use voiceapp.Server.Handler.{handle_packet, handle_ping_request, handle_disconnect, announce_left}
use voiceapp.Mirror.{IsHonest, Announces, Departs}
use voiceapp.Mirror.Hears.{gone_own, gone_others}
use voiceapp.Mirror.Runs.{Ended, Put, Ended-respond, Ended-map, Ended-then, Ended-for_all}
use voiceapp.Mirror.Steps.{
  silent_lem, Ended-join, Ended-leave, Ended-mute, Ended-chat, Ended-login, to_everyone,
}

module _ (t : Table User) (address observer : ℕ) (apart : address ≢ observer) where
  ignored :
      (w : World t) (u : User) → t.get w.users address ≡ some u → Announces t address observer u w w
  ignored w u e =
      silent_lem t address observer apart u w w e (record { users = refl; broadcasts = refl })

  -- When a connection handles a packet of its user without an error, there are packets in the broadcast
  -- messages that it puts on the channel for another connection, and a room that hears of them, and
  -- showed the user as the server had it, shows the user as the server then has it. The room's entry
  -- of every other participant stays as it was. A login must come outside of the voice channel and
  -- not muted, and a mute state must have the number of its own user.
  pub handle_packet-Announces :
      (p : Packet) (w : World t) (u : User)
      → t.get w.users address ≡ some u
      → IsHonest u p
      → Ended t (handle_packet t address p w) (λ _ w'. Announces t address observer u w w')
  unfolding handle_packet handle_ping_request pure
  handle_packet-Announces (voice_auth_request _ _) w u e h = ignored w u e
  handle_packet-Announces (login_response _ _ _ _) w u e h = ignored w u e
  handle_packet-Announces (voice_auth_response _ _) w u e h = ignored w u e
  handle_packet-Announces (join_voice_channel_response _ _) w u e h = ignored w u e
  handle_packet-Announces (leave_voice_channel_response _ _) w u e h = ignored w u e
  handle_packet-Announces (chat_message_response _ _) w u e h = ignored w u e
  handle_packet-Announces (ping_response _) w u e h = ignored w u e
  handle_packet-Announces (user_joined_server _) w u e h = ignored w u e
  handle_packet-Announces (user_joined_voice _) w u e h = ignored w u e
  handle_packet-Announces (user_left_voice _) w u e h = ignored w u e
  handle_packet-Announces (user_left_server _) w u e h = ignored w u e
  handle_packet-Announces (user_sent_message _ _ _) w u e h = ignored w u e
  handle_packet-Announces (voice_data _ _ _ _) w u e h = ignored w u e
  handle_packet-Announces (login_request r name) w u e h =
      Ended-login t address observer apart r name w u h.0 h.1 e
  handle_packet-Announces (join_voice_channel_request r) w u e h =
      Ended-join t address observer apart r w u e
  handle_packet-Announces (leave_voice_channel_request r) w u e h =
      Ended-leave t address observer apart r w u e
  handle_packet-Announces (chat_message_request r m) w u e h =
      Ended-chat t address observer apart r m w u e
  handle_packet-Announces (ping_request r) w u e h =
      Ended-map t (respond t (ping_response r) w) _ _ (Ended-respond t (ping_response r) w)
        (λ _ w' s. silent_lem t address observer apart u w w' e s)
  handle_packet-Announces (user_mute_state i b) w u e h =
      Ended-mute t address observer apart i b w u h e

  removed : (users : t.Map) → t.get (t.remove users address) address ≡ none
  removed users = t.get-remove users address address ∙ ground arith

  voice_part :
      (w : World t) (u : User) (v : World t) (bytes : List ℕ)
      → encode (user_left_server u.id) ≡ some bytes
      → Put t
          (record { exclude = none; data_ = bytes })
          (record w { users = t.remove w.users address })
          v
      → (b : Bool)
      → Ended t
          ((if b then broadcast t (for_all (user_left_voice u.id)) else pure tt) v)
          (λ _ w'. Departs t address observer u w w')
  unfolding pure
  voice_part w u v bytes encoded put false = record {
    messages = record { exclude = none; data_ = bytes } ∷ [];
    packets = user_left_server u.id ∷ [];
    sent = put.broadcasts;
    carry = (encoded, to_everyone observer bytes, tt);
    gone = ap (λ us. t.get us address) put.users ∙ removed w.users;
    own = gone_own u false;
    others = λ k o differs. gone_others u.id k false o differs;
  }
  voice_part w u v bytes encoded put true =
      Ended-map t (broadcast t (for_all (user_left_voice u.id)) v) _ _
        (Ended-for_all t (user_left_voice u.id) v)
        λ _ w' (bytes', encoded', put'). record {
          messages =
              record { exclude = none; data_ = bytes }
              ∷ record { exclude = none; data_ = bytes' }
              ∷ [];
          packets = user_left_server u.id ∷ user_left_voice u.id ∷ [];
          sent =
              put'.broadcasts
              ∙ ap (λ bs. bs ++ (record { exclude = none; data_ = bytes' } ∷ [])) put.broadcasts
              ∙ append_assoc w.broadcasts _ _;
          carry =
              (encoded, to_everyone observer bytes, (encoded', to_everyone observer bytes', tt));
          gone = ap (λ us. t.get us address) (put'.users ∙ put.users) ∙ removed w.users;
          own = gone_own u true;
          others = λ k o differs. gone_others u.id k true o differs;
        }

  -- When the connection of a user ends without a panic, the broadcast messages that it puts on the
  -- channel take the user out of the participants of a room that hears of them, and leave its entry of
  -- every other participant as it was.
  pub handle_disconnect-Departs :
      (w : World t) (u : User)
      → t.get w.users address ≡ some u
      → Ended t (handle_disconnect t address w) (λ _ w'. Departs t address observer u w w')
  unfolding handle_disconnect announce_left pure
  handle_disconnect-Departs w u e =
      rw (e, handle_disconnect)
        (Ended-then t (broadcast t (for_all (user_left_server u.id))) _ gone_world _ _
          (Ended-for_all t (user_left_server u.id) gone_world)
          λ _ v (bytes, encoded, put). voice_part w u v bytes encoded put u.in_voice)
    where
      gone_world : World t
      gone_world = record w { users = t.remove w.users address }
