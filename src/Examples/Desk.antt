-- ===== src/Examples/Desk.antt =====
-- The desktop program at chosen messages.
use voiceapp.Base.{
  refl, Option, ℕ, zero, suc, ◌≡◌, ◌≢◌, true, false, none, some, List, [], ◌∷◌, map, arith, ok,
}
use voiceapp.Table.Assoc.{assoc}
use voiceapp.Protocol.Packet.{ParticipantInfo}
use voiceapp.Sdk.Events.{ClientEvent}
use voiceapp.Sdk.Voice.Output.{NetEq, AudioPacket, Decoder}
use voiceapp.Desktop.Message
use voiceapp.Desktop.Message.{String, RoomPageMessage, VoiceCommandResult, LoginPageMessage}
use voiceapp.Desktop.Room
use voiceapp.Desktop.Room.{ChatMessage, RoomPage, updates}
use voiceapp.Desktop.Room.Keeps.{IsRoom, updates-IsRoom}
use voiceapp.Desktop.Room.Roster.{told_all, updates-told}
use voiceapp.Desktop.Audio.{Devices, OutputStream}
use voiceapp.Desktop.Audio.State
use voiceapp.Desktop.Audio.State.Follows.{IsFollowing, updates-IsFollowing}
use voiceapp.Desktop.Login
use voiceapp.Desktop.Login.Filled.{Step, updates-Step}
use voiceapp.Desktop.Samples.{
  AudioSource, StreamConfigRange, f32, i16, other_format, Best, find_best_stream_config,
  fill_output,
}
use voiceapp.Desktop.Notification.{play, calls}
use voiceapp.Desktop.Notification.Plays.{Sounds, play-Sounds}
use voiceapp.Desktop.Samples.Best.{IsFirst, find_best-IsFirst}
use voiceapp.Desktop.Samples.Fill.{Fills, fill_output-Fills}

abbrev no_time : ℕ → String
no_time timestamp = []

-- User 1 logs in, sees user 2, who joins, writes, and leaves the server.
abbrev events : List ClientEvent
events =
    ClientEvent.participants_list 1 (
      record { user_id = 2; username = 98 ∷ []; in_voice = false; is_muted = false }
      ∷ record { user_id = 1; username = 97 ∷ []; in_voice = false; is_muted = false }
      ∷ [])
    ∷ ClientEvent.joined_voice 2
    ∷ ClientEvent.sent_message 2 5 (104 ∷ [])
    ∷ ClientEvent.left_server 2
    ∷ []

abbrev messages : List Message.Message
messages =
    Message.room_page (RoomPageMessage.chat_message_changed (104 ∷ 105 ∷ []))
    ∷ Message.server_event_received (ClientEvent.joined_server 3 (99 ∷ []))
    ∷ Message.room_page RoomPageMessage.mute_toggle
    ∷ Message.room_page RoomPageMessage.chat_message_submitted
    ∷ []

updates-IsRoom_example :
    IsRoom no_time
      (assoc ParticipantInfo)
      (assoc ChatMessage)
      (assoc ℕ)
      (updates no_time
        (assoc ParticipantInfo)
        (assoc ChatMessage)
        (assoc ℕ)
        messages
        (Room.new no_time (assoc ParticipantInfo) (assoc ChatMessage) (assoc ℕ) [])).1
updates-IsRoom_example =
    updates-IsRoom no_time (assoc ParticipantInfo) (assoc ChatMessage) (assoc ℕ) messages []

abbrev room : RoomPage no_time (assoc ParticipantInfo) (assoc ChatMessage) (assoc ℕ)
room = Room.new no_time (assoc ParticipantInfo) (assoc ChatMessage) (assoc ℕ) []

updates-told_example :
    (assoc ParticipantInfo).get
      (updates no_time
        (assoc ParticipantInfo)
        (assoc ChatMessage)
        (assoc ℕ)
        (map Message.server_event_received events)
        room).1.participants
      2
    ≡ told_all 2 events none
updates-told_example =
    updates-told no_time (assoc ParticipantInfo) (assoc ChatMessage) (assoc ℕ) 2 events room

-- A jitter buffer that takes everything, and devices that open.
abbrev buffer : NetEq ℕ
buffer = record {
  State = List AudioPacket;
  create = λ rate. some [];
  insert_packet = λ p s. (some tt, p ∷ s);
  get_audio = λ s. (none, s);
}

abbrev devices : Devices
devices = record {
  input_device = record {
    device_id = [];
    sample_rate = 48000;
    sample_format = [];
    channels = 1;
    volume = 100;
  };
  output_device = record {
    device_id = [];
    sample_rate = 44100;
    sample_format = [];
    channels = 2;
    volume = 100;
  };
  create_input_stream = λ d. some 1;
  create_output_stream = λ d. some 2;
  get_voice_input_sender = λ rate. true;
}

-- User 2 joins, then user 1 itself, and leaves again.
abbrev talk : List (Devices × Message.Message)
talk =
    (devices, Message.server_event_received (ClientEvent.joined_voice 2))
    ∷ (devices, Message.voice_command_result (VoiceCommandResult.joined_voice (ok tt)))
    ∷ (devices, Message.voice_command_result (VoiceCommandResult.left_voice (ok tt)))
    ∷ []

ne_suc : (n : ℕ) → suc n ≢ n
ne_suc n e = absurd (omega (arith, e))

updates-IsFollowing_example :
    IsFollowing buffer
      (assoc (ℕ × ℕ))
      (assoc (Decoder buffer))
      (assoc OutputStream)
      (assoc (Unit {0}))
      (State.updates buffer
        (assoc (ℕ × ℕ))
        (assoc (Decoder buffer))
        (assoc OutputStream)
        (assoc (Unit {0}))
        talk
        (State.update buffer
          (assoc (ℕ × ℕ))
          (assoc (Decoder buffer))
          (assoc OutputStream)
          (assoc (Unit {0}))
          devices
          (Message.voice_command_result (VoiceCommandResult.connected (ok (1, [], []))))
          (State.new buffer
            (assoc (ℕ × ℕ))
            (assoc (Decoder buffer))
            (assoc OutputStream)
            (assoc (Unit {0})))))
updates-IsFollowing_example =
    updates-IsFollowing buffer (assoc (ℕ × ℕ)) (assoc (Decoder buffer)) (assoc OutputStream)
      (assoc (Unit {0})) talk devices 1 [] [] (ne_suc 1, (tt, (tt, tt)))

-- A name and an address are typed in, and the form is sent.
abbrev typed : List Message.Message
typed =
    Message.login_page (LoginPageMessage.username_changed (97 ∷ []))
    ∷ Message.login_page LoginPageMessage.login_submitted
    ∷ Message.login_page (LoginPageMessage.voice_url_changed (104 ∷ []))
    ∷ Message.login_page LoginPageMessage.login_submitted
    ∷ []

updates-Step_example :
    Step (Login.updates typed (Login.new (record { address = []; username = [] })))
updates-Step_example = updates-Step typed (record { address = []; username = [] })

-- A device without a floating-point format at 48000 Hz.
abbrev stereo : StreamConfigRange
stereo = record {
  sample_format = f32;
  min_sample_rate = 8000;
  max_sample_rate = 44100;
  channels = 2;
}

abbrev more_ranges : List StreamConfigRange
more_ranges =
    record {
      sample_format = other_format 4;
      min_sample_rate = 8000;
      max_sample_rate = 96000;
      channels = 2;
    }
    ∷ record { sample_format = i16; min_sample_rate = 8000; max_sample_rate = 96000; channels = 1 }
    ∷ []

find_best-IsFirst_example :
    (best : Best) × (find_best_stream_config (stereo ∷ more_ranges) ≡ some best)
    × IsFirst (stereo ∷ more_ranges) best
find_best-IsFirst_example = find_best-IsFirst stereo more_ranges

-- A source that gives two frames of three samples, and then fails.
abbrev source : AudioSource ℕ
source = record {
  State = ℕ;
  silence = 0;
  get_audio = λ s. elim s [ zero ↦ (none, zero) | suc k ↦ (some (1 ∷ 2 ∷ 3 ∷ []), k) ];
}

fill_output-Fills_example : Fills source 10 [] (9 ∷ []) 2 (fill_output source 10 (9 ∷ []) 2)
fill_output-Fills_example = fill_output-Fills source 10 (9 ∷ []) 2

-- Each name is known, and no volume changes a sample; a call takes two samples.
abbrev jingle : String → Option (List ℕ)
jingle sound_id = some (3 ∷ 4 ∷ 5 ∷ [])

abbrev full : List ℕ → ℕ → List ℕ
full samples volume = samples

play-Sounds_example :
    Sounds 0 jingle full 2
      (calls 0 jingle full 2 4 (play 0 jingle full 2 [] 100 none))
      (3 ∷ 4 ∷ 5 ∷ [])
play-Sounds_example =
    play-Sounds 0 jingle full 2 [] 100 4 none (3 ∷ 4 ∷ 5 ∷ []) (omega arith) refl (omega arith)
