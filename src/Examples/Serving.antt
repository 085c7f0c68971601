-- ===== src/Examples/Serving.antt =====
-- The handlers of the management server at a chosen world.
use voiceapp.Base.{◌≡◌, refl, true, false, none, [], ◌∷◌, Member, arith, filter_map}
use voiceapp.Table.Assoc.{assoc}
use voiceapp.Protocol.Bytes.{to_be_bytes}
use voiceapp.Protocol.Packet.{
  join_voice_channel_request, login_request, login_response, user_mute_state,
}
use voiceapp.Protocol.Layout.{payload, frame, participants_bytes, participant_bytes}
use voiceapp.Server.User.{User}
use voiceapp.Server.World.{World}
use voiceapp.Server.Handler.{handle_packet, participant, participants, is_refused}
use voiceapp.Server.Handler.Keeps.{Keeps, users_after, handle_packet-Keeps}
use voiceapp.Server.Handler.Login.{info}
use voiceapp.Server.Handler.Answers.{
  Replied, sent_after, renamed, handle_packet-Answers, handle_login_request-answers,
}

abbrev caller : User
caller = record { id = 1; username = none; in_voice = false; is_muted = false; token = 77 }

abbrev world : World (assoc User)
world = record {
  users = (10, caller) ∷ [];
  broadcasts = [];
  events = [];
  sent = [];
  writable = true;
  clock = 0;
}

handle_packet-Keeps_example :
    Keeps
      (assoc User)
      10
      world.users
      (users_after (assoc User) 10 (handle_packet (assoc User) 10 (user_mute_state 1 true) world))
handle_packet-Keeps_example = handle_packet-Keeps (assoc User) 10 (user_mute_state 1 true) world

handle_packet-Answers_example :
    Replied
      (join_voice_channel_request 4)
      []
      (sent_after (assoc User) (handle_packet (assoc User) 10 (join_voice_channel_request 4) world))
handle_packet-Answers_example =
    handle_packet-Answers (assoc User) 10 (join_voice_channel_request 4) world caller tt refl refl

handle_login_request-answers_example :
    (sent_after (assoc User) (handle_packet (assoc User) 10 (login_request 5 (104 ∷ [])) world)
      ≡ frame (
          login_response 5 1 77
            (participants (assoc User) (renamed (assoc User) 10 (104 ∷ []) world caller))))
    × Member
        (info caller (104 ∷ []))
        (participants (assoc User) (renamed (assoc User) 10 (104 ∷ []) world caller))
unfolding is_refused participants filter_map participant payload to_be_bytes participants_bytes
    participant_bytes
handle_login_request-answers_example =
    handle_login_request-answers (assoc User) 10 5 (104 ∷ []) world caller refl refl refl
      (omega arith)
