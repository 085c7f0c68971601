-- ===== src/Desktop/Audio.antt =====
-- desktop/src/audio/audio_manager.rs: the streams of sound. The sound devices and the floats of the volumes are left to
-- parameters; a stream has the number that the device gives it. The calls of the client library are those
-- of Sdk/Voice.
pub mod Streams
pub mod State
use voiceapp.Base.{
  ℕ, ◌==◌, not, Bool, true, false, if◌then◌else◌, Option, none, some, List, [], ◌∷◌, ◌++◌, map,
  Result, ok, err,
}
use voiceapp.Table.{Table}
use voiceapp.Sdk.Events.{ClientEvent}
use voiceapp.Sdk.Voice.Output.{
  NetEq, Decoder, Outputs, no_outputs, get_or_create_voice_output, remove_voice_output_for,
  remove_all_voice_outputs,
}
use voiceapp.Desktop.Message
use voiceapp.Desktop.Message.{String, SettingsPageMessage, VoiceCommandResult}
use voiceapp.Desktop.Config.{AudioDevice}

pub data Sound : Type 0 where
  join_voice leave_voice mute unmute : Sound

-- What a step reads of the configuration, and the devices at that time: opening one may fail, and so
-- may the pipeline of the client for a sample rate.
pub record Devices : Type 0 where
  pub input_device : AudioDevice
  pub output_device : AudioDevice
  pub create_input_stream : AudioDevice → Option ℕ
  pub create_output_stream : AudioDevice → Option ℕ
  pub get_voice_input_sender : ℕ → Bool

-- A stream of a user: its number, and the number of the decoder that it plays.
pub record OutputStream : Type 0 where
  pub stream : ℕ
  pub decoder : ℕ

module _ {Sample : Type 0} (n : NetEq Sample) (tu : Table (ℕ × ℕ)) (td : Table (Decoder n))
    (ts : Table OutputStream) where
  -- The task that forwards the microphone is there with the number of the stream it reads.
  pub record AudioManager : Type 0 where
    pub voice_outputs : Outputs n tu td
    pub input_stream : Option ℕ
    pub input_receiver_task : Option ℕ
    pub output_streams : ts.Map
    pub is_input_muted : Bool
    pub notification_stream : Option ℕ
    pub sounds : List Sound

  abbrev pub new_manager : AudioManager
  new_manager = record {
    voice_outputs = no_outputs n tu td;
    input_stream = none;
    input_receiver_task = none;
    output_streams = ts.empty;
    is_input_muted = false;
    notification_stream = none;
    sounds = [];
  }

  unfoldable pub start_recording : Devices → AudioManager → AudioManager
  start_recording d a = elim (d.create_input_stream d.input_device) [
    | none ↦ a
    | some stream ↦
        if d.get_voice_input_sender d.input_device.sample_rate
        then record a { input_stream = some stream; input_receiver_task = some stream }
        else a
  ]

  unfoldable pub stop_recording : AudioManager → AudioManager
  stop_recording a = record a { input_stream = none; input_receiver_task = none }

  -- An error is logged by the callers.
  unfoldable pub create_output_stream_for_user : Devices → ℕ → AudioManager → AudioManager
  create_output_stream_for_user d user_id a =
      let given =
        get_or_create_voice_output n tu td user_id d.output_device.sample_rate a.voice_outputs in
      elim given.0 [
        | err _ ↦ record a { voice_outputs = given.1 }
        | ok decoder ↦ elim (d.create_output_stream d.output_device) [
          | none ↦ record a { voice_outputs = given.1 }
          | some stream ↦ record a {
            voice_outputs = given.1;
            output_streams =
                ts.insert a.output_streams user_id (record { stream = stream; decoder = decoder });
          }
        ]
      ]

  unfoldable pub remove_output_stream_for_user : ℕ → AudioManager → AudioManager
  remove_output_stream_for_user user_id a = record a {
    output_streams = ts.remove a.output_streams user_id;
    voice_outputs = remove_voice_output_for n tu td user_id a.voice_outputs;
  }

  unfoldable pub remove_all_output_streams : AudioManager → AudioManager
  remove_all_output_streams a = record a {
    output_streams = ts.empty;
    voice_outputs = remove_all_voice_outputs n tu td a.voice_outputs;
  }

  unfoldable pub init_notification_player : Devices → AudioManager → AudioManager
  init_notification_player d a = elim (d.create_output_stream d.output_device) [
    | none ↦ a
    | some stream ↦ record a { notification_stream = some stream }
  ]

  unfoldable pub play_notification : Sound → AudioManager → AudioManager
  play_notification sound a = elim a.notification_stream [
    | none ↦ a
    | some _ ↦ record a { sounds = a.sounds ++ (sound ∷ []) }
  ]

  unfoldable pub set_muted : Bool → AudioManager → AudioManager
  set_muted muted a = record a { is_input_muted = muted }

  -- `for user_id in users { create_output_stream_for_user(user_id) }`
  unfoldable pub create_output_streams : Devices → List ℕ → AudioManager → AudioManager
  create_output_streams d [] a = a
  create_output_streams d (u ∷ us) a =
      create_output_streams d us (create_output_stream_for_user d u a)
