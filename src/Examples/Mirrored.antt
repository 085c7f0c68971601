-- ===== src/Examples/Mirrored.antt =====
-- A user joins the voice channel, and another's room hears of it.
use voiceapp.Base.{ℕ, ◌+◌, ◌≢◌, refl, true, false, some, [], ◌∷◌, arith}
use voiceapp.Table.Assoc.{assoc}
use voiceapp.Protocol.Packet.{join_voice_channel_request}
use voiceapp.Server.User.{User}
use voiceapp.Server.World.{World}
use voiceapp.Server.Handler.{handle_packet, handle_disconnect}
use voiceapp.Mirror.{Announces, Departs}
use voiceapp.Base.{done}
use voiceapp.Base.Runs.{◌>>=◌, ◌>>◌}
use voiceapp.Base.{◌≡◌, ◌⊎◌, length, sym, ◌∙◌, some-none, ◌++◌, ◌<◌, none}
use voiceapp.Protocol.Bytes.{to_be_bytes}
use voiceapp.Protocol.Packet.{ParticipantInfo, user_joined_server, login_request}
use voiceapp.Protocol.Layout.{payload, frame, max_payload, participants_bytes, participant_bytes}
use voiceapp.Protocol.Encoding.{encode-fits}
use voiceapp.Server.Event.{user_connected}
use voiceapp.Server.Management.Reach
use voiceapp.Server.Management.Reach.{Reachable-IsNumbered}
use voiceapp.Server.Management.Agreement.{Distinct}
use voiceapp.Server.World.Frames.{world_after}
use voiceapp.Server.Handler.{is_refused, participants, participant}
use voiceapp.Base.{filter_map}
use voiceapp.Server.Handler.Answers.{sent_after}
use voiceapp.Desktop.Message.{String}
use voiceapp.Desktop.Room
use voiceapp.Desktop.Room.{ChatMessage, RoomPage}
use voiceapp.Mirror.Elsewhere
use voiceapp.Mirror.Page.{Shows, Updates, greeting, told_page, run-Updates, login-Shows}
use voiceapp.Server.Broadcast.{excluding}
use voiceapp.Server.World.{broadcast, change_user, respond, write_all}
use voiceapp.Server.Handler.{handle_login_request, accept_login, respond_login}
use voiceapp.Server.Management.{
  ManagementServer, new, accept, register_new_user, send_event, seen, packet,
}
use voiceapp.Mirror.Runs.{Ended}
use voiceapp.Mirror.Packets.{handle_packet-Announces, handle_disconnect-Departs}

abbrev ann : User
ann = record { id = 1; username = some (97 ∷ []); in_voice = false; is_muted = false; token = 7 }

abbrev bob : User
bob = record { id = 2; username = some (98 ∷ []); in_voice = true; is_muted = true; token = 8 }

-- Ann at the address 50 and Bob at 60.
abbrev two_users : World (assoc User)
two_users = record {
  users = (50, ann) ∷ (60, bob) ∷ [];
  broadcasts = [];
  events = [];
  sent = [];
  writable = true;
  clock = 0;
}

far : (n : ℕ) → n ≢ 10 + n
far n e = absurd (omega (arith, e))

near : (n : ℕ) → 10 + n ≢ n
near n e = absurd (omega (arith, e))

handle_packet-Announces_example :
    Ended
      (assoc User)
      (handle_packet (assoc User) 50 (join_voice_channel_request 3) two_users)
      (λ _ w'. Announces (assoc User) 50 60 ann two_users w')
handle_packet-Announces_example =
    handle_packet-Announces (assoc User) 50 60 (far 50) (join_voice_channel_request 3) two_users ann
      refl tt

handle_disconnect-Departs_example :
    Ended
      (assoc User)
      (handle_disconnect (assoc User) 60 two_users)
      (λ _ w'. Departs (assoc User) 60 50 bob two_users w')
handle_disconnect-Departs_example =
    handle_disconnect-Departs (assoc User) 60 50 (near 50) two_users bob refl

-- The page of a connection at the address 60, before it hears anything.
abbrev no_time : ℕ → String
no_time n = []

abbrev page : RoomPage no_time (assoc ParticipantInfo) (assoc ChatMessage) (assoc ℕ)
page = Room.new no_time (assoc ParticipantInfo) (assoc ChatMessage) (assoc ℕ) []

-- Ann's connection is accepted while nobody else is there, and logs in.
abbrev first : ManagementServer (assoc User)
first = new (assoc User)

abbrev with_ann : ManagementServer (assoc User)
with_ann = accept (assoc User) 50 7 first

abbrev newcomer : User
newcomer = record { id = 1; username = none; in_voice = false; is_muted = false; token = 7 }

abbrev at_login : World (assoc User)
at_login = seen (assoc User) [] true 0 with_ann

abbrev entry : ParticipantInfo
entry = record { user_id = 1; username = 97 ∷ []; in_voice = false; is_muted = false }

abbrev logged_in : World (assoc User)
logged_in = record {
  users = (50, record newcomer { username = some (97 ∷ []) }) ∷ (50, newcomer) ∷ [];
  broadcasts = record { exclude = some 50; data_ = frame (user_joined_server entry) } ∷ [];
  events = user_connected 1 7 ∷ [];
  sent = frame (greeting (assoc User) 50 3 (97 ∷ []) at_login newcomer);
  writable = true;
  clock = 0;
}

greeting_fits :
    length (payload (greeting (assoc User) 50 3 (97 ∷ []) at_login newcomer)) < max_payload
unfolding seen accept register_new_user send_event new participants filter_map participant payload
    to_be_bytes participants_bytes participant_bytes
greeting_fits = omega arith

entry_fits : length (payload (user_joined_server entry)) < max_payload
unfolding payload to_be_bytes participant_bytes
entry_fits = omega arith

login_lem : handle_packet (assoc User) 50 (login_request 3 (97 ∷ [])) at_login ≡ done tt logged_in
unfolding seen accept register_new_user send_event new handle_packet handle_login_request
    accept_login respond_login is_refused change_user ◌>>=◌ ◌>>◌ broadcast excluding respond
    write_all
login_lem =
    rw
      (
        encode-fits (greeting (assoc User) 50 3 (97 ∷ []) at_login newcomer) greeting_fits,
        handle_packet,
        handle_login_request,
        accept_login,
        ◌>>=◌,
        ◌>>◌,
        respond_login,
        respond,
      )
      (rw
        (
          encode-fits (user_joined_server entry) entry_fits,
          handle_packet,
          handle_login_request,
          accept_login,
          ◌>>=◌,
          ◌>>◌,
          excluding,
        )
        refl)

there_lem : (assoc User).get at_login.users 50 ≡ some newcomer
unfolding seen accept register_new_user send_event new
there_lem = refl

vacant_lem : (a : ℕ) → (assoc User).get first.users a ≡ none
unfolding new
vacant_lem a = refl

after_login : ManagementServer (assoc User)
after_login = packet (assoc User) 50 (login_request 3 (97 ∷ [])) [] true 0 with_ann

elsewhere : Elsewhere.Elsewhere (assoc User) 60 0 first 1 after_login
unfolding after_login seen
elsewhere =
    Elsewhere.handles (Elsewhere.accepts Elsewhere.stays 50 7 (far 50) (vacant_lem 50)) 50 newcomer
      (login_request 3 (97 ∷ [])) [] true 0 logged_in (far 50) there_lem (refl, refl) login_lem

nothing_shown :
    Shows no_time
      (assoc ParticipantInfo)
      (assoc ChatMessage)
      (assoc ℕ)
      (assoc User)
      60
      first.users
      page
nothing_shown = record {
  each = λ a u away e. absurd (some-none (sym e ∙ vacant_lem a));
  nobody = λ k free. refl;
}

run-Updates_example :
    Updates no_time
      (assoc ParticipantInfo)
      (assoc ChatMessage)
      (assoc ℕ)
      (assoc User)
      60
      first
      after_login
      page
run-Updates_example =
    run-Updates no_time (assoc ParticipantInfo) (assoc ChatMessage) (assoc ℕ) (assoc User) 60 page
      Reach.starts elsewhere (omega arith) nothing_shown

found :
    (a : ℕ) (u : User)
    → (assoc User).get two_users.users a ≡ some u
    → ((a ≡ 50) × (u.id ≡ 1)) ⊎ ((a ≡ 60) × (u.id ≡ 2))
found a u e = ground arith

two_users-Distinct : Distinct (assoc User) two_users.users
two_users-Distinct a b u v ea eb same = ground (arith, found a u ea, found b v eb)

two_fit : length (payload (greeting (assoc User) 60 3 (99 ∷ []) two_users bob)) < max_payload
unfolding participants filter_map participant payload to_be_bytes participants_bytes
    participant_bytes
two_fit = omega arith

login-Shows_example :
    (let result = handle_packet (assoc User) 60 (login_request 3 (99 ∷ [])) two_users in
      (sent_after (assoc User) result
        ≡ [] ++ frame (greeting (assoc User) 60 3 (99 ∷ []) two_users bob))
      × Shows no_time
          (assoc ParticipantInfo)
          (assoc ChatMessage)
          (assoc ℕ)
          (assoc User)
          60
          (world_after (assoc User) result).users
          (told_page no_time
            (assoc ParticipantInfo)
            (assoc ChatMessage)
            (assoc ℕ)
            (assoc User)
            (greeting (assoc User) 60 3 (99 ∷ []) two_users bob ∷ [])
            page))
unfolding is_refused
login-Shows_example =
    login-Shows no_time (assoc ParticipantInfo) (assoc ChatMessage) (assoc ℕ) (assoc User) 60 3
      (99 ∷ []) two_users bob page refl refl refl two_users-Distinct two_fit
