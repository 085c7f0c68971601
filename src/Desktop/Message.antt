-- ===== src/Desktop/Message.antt =====
-- The messages of desktop/src/application.rs, and those of the pages and of the client that they
-- carry. A text is a list of bytes, and a float is the number of its bits.
use voiceapp.Base.{ℕ, Bool, List, [], ◌∷◌, Result}
use voiceapp.Sdk.Events.{ClientEvent}

abbrev pub String : Type 0
String = List ℕ

pub data ViewType : Type 0 where
  login room settings : ViewType

-- desktop/src/view/login.rs
pub data LoginPageMessage : Type 0 where
  voice_url_changed username_changed : String → LoginPageMessage
  login_submitted : LoginPageMessage

-- desktop/src/view/room.rs
pub data RoomPageMessage : Type 0 where
  mute_toggle join_leave_toggle : RoomPageMessage
  chat_message_changed : String → RoomPageMessage
  chat_message_submitted : RoomPageMessage
  user_clicked : (user_id : ℕ) → RoomPageMessage
  user_settings_dismissed : RoomPageMessage
  user_volume_changed : (user_id volume : ℕ) → RoomPageMessage

-- desktop/src/view/settings.rs
pub data SettingsPageMessage : Type 0 where
  select_input_device select_output_device : (device_id : String) → SettingsPageMessage
  input_sensitivity_changed input_volume_changed : ℕ → SettingsPageMessage
  output_volume_changed notification_volume_changed : ℕ → SettingsPageMessage
  radio_hover_enter radio_hover_leave : (group : String) (index : ℕ) → SettingsPageMessage
  input_stream_created : Result (Unit {0}) String → SettingsPageMessage

-- desktop/src/state/voice_client.rs
pub data VoiceCommand : Type 0 where
  connect : (management_addr voice_addr username : String) → VoiceCommand
  join_voice_channel leave_voice_channel : VoiceCommand
  send_chat_message : String → VoiceCommand
  ping get_voice_stats : VoiceCommand

pub data VoiceCommandResult : Type 0 where
  connected : Result (ℕ × String × String) String → VoiceCommandResult
  joined_voice left_voice message_sent : Result (Unit {0}) String → VoiceCommandResult
  pinged : Result ℕ String → VoiceCommandResult
  voice_stats : (bytes_sent bytes_received : ℕ) → VoiceCommandResult

-- The keys that the program knows.
pub data Key : Type 0 where
  f10 escape other_key : Key

pub data Message : Type 0 where
  login_page : LoginPageMessage → Message
  room_page : RoomPageMessage → Message
  settings_page : SettingsPageMessage → Message
  switch_view : ViewType → Message
  mute_input : Bool → Message
  execute_voice_command : VoiceCommand → Message
  voice_command_result : VoiceCommandResult → Message
  server_event_received : ClientEvent → Message
  voice_input_samples_received : List ℕ → Message
  key_pressed : Key → Message
  periodic_config_save : Message
  window_close_requested : (window : ℕ) → Message
  no_message : Message

-- What a task is to do: to send a message to the program, to move the chat to its end, to call the
-- client and send its answer, to tell the server of a muted microphone, to close a window, or to
-- listen to the events of the client or to a microphone.
pub data Effect : Type 0 where
  send : Message → Effect
  snap_to_end : Effect
  perform : VoiceCommand → Effect
  tell_muted : Bool → Effect
  close : (window : ℕ) → Effect
  listen_to_events listen_to_input : Effect

abbrev pub Task : Type 0
Task = List Effect

abbrev pub no_task : Task
no_task = []

abbrev pub task_done : Message → Task
task_done m = send m ∷ []
