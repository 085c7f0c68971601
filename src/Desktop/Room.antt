-- ===== src/Desktop/Room.antt =====
-- desktop/src/view/room.rs: the state of the room's page and its update. What is drawn is left out,
-- and the format of a time of the day is a parameter. The chat history is a sorted map there: here it
-- is a map from time stamps.
pub mod Keeps
pub mod Roster
use voiceapp.Base.{
  ℕ, ◌^◌, ◌==◌, leb, Bool, true, false, not, if◌then◌else◌, Option, none, some, List, [], ◌∷◌, ◌++◌,
  length, Result, ok, err,
}
use voiceapp.Table.{Table}
use voiceapp.Protocol.Packet.{ParticipantInfo}
use voiceapp.Sdk.Events
use voiceapp.Sdk.Events.{ClientEvent}
use voiceapp.Desktop.Message
use voiceapp.Desktop.Message.{
  String, RoomPageMessage, mute_toggle, join_leave_toggle, chat_message_changed,
  chat_message_submitted, user_clicked, user_settings_dismissed, user_volume_changed, VoiceCommand,
  VoiceCommandResult, Key, f10, Task, no_task, task_done, mute_input, execute_voice_command, Effect,
  snap_to_end,
}

pub record ChatMessage : Type 0 where
  pub username : String
  pub message : String
  pub time : String

abbrev pub max_chat_message : ℕ
max_chat_message = 2000

module _ (format_time : ℕ → String) where
  abbrev pub new_chat_message : String → String → ℕ → ChatMessage
  new_chat_message username message timestamp = record {
    username = username;
    message = message;
    time = format_time timestamp;
  }

  module _ (tp : Table ParticipantInfo) (tc : Table ChatMessage) (tv : Table ℕ) where
    pub record RoomPage : Type 0 where
      pub user_id : ℕ
      pub muted : Bool
      pub chat_message : String
      pub participants : tp.Map
      pub chat_history : tc.Map
      pub volume_per_user : tv.Map
      pub selected_user_settings : Option ℕ
      pub overlay_visible : Bool
      pub ping_ms : Option ℕ
      pub bytes_sent : ℕ
      pub bytes_received : ℕ

    -- The volumes are those of the configuration.
    abbrev pub new : tv.Map → RoomPage
    new users_volumes = record {
      user_id = 0;
      muted = false;
      chat_message = [];
      participants = tp.empty;
      chat_history = tc.empty;
      volume_per_user = users_volumes;
      selected_user_settings = none;
      overlay_visible = false;
      ping_ms = none;
      bytes_sent = 0;
      bytes_received = 0;
    }

    unfoldable pub is_in_voice : RoomPage → Bool
    is_in_voice r = elim (tp.get r.participants r.user_id) [ some p ↦ p.in_voice | none ↦ false ]

    -- `if let Some(user) = self.participants.get_mut(&user_id)`, with the change made there.
    unfoldable pub change_participant :
        ℕ → (ParticipantInfo → ParticipantInfo) → RoomPage → RoomPage
    change_participant user_id change r = elim (tp.get r.participants user_id) [
      | some p ↦ record r { participants = tp.insert r.participants user_id (change p) }
      | none ↦ r
    ]

    unfoldable pub update_page : RoomPageMessage → RoomPage → Task × RoomPage
    update_page mute_toggle r =
        let muted = not r.muted in
        (
          task_done (mute_input muted),
          change_participant r.user_id (λ p. record p { is_muted = muted })
              (record r { muted = muted }),
        )
    update_page join_leave_toggle r =
        if is_in_voice r
        then (task_done (execute_voice_command VoiceCommand.leave_voice_channel), r)
        else (task_done (execute_voice_command VoiceCommand.join_voice_channel), r)
    update_page (chat_message_changed value) r =
        if leb (length value) max_chat_message
        then (no_task, record r { chat_message = value })
        else (no_task, r)
    update_page chat_message_submitted r = if length r.chat_message == 0 then (no_task, r) else (
      task_done (execute_voice_command (VoiceCommand.send_chat_message r.chat_message)),
      record r { chat_message = [] },
    )
    update_page (user_clicked user_id) r =
        (no_task, record r { selected_user_settings = some user_id })
    update_page user_settings_dismissed r = (no_task, record r { selected_user_settings = none })
    update_page (user_volume_changed user_id volume) r =
        (no_task, record r { volume_per_user = tv.insert r.volume_per_user user_id volume })

    -- The errors are only logged.
    unfoldable pub update_result : VoiceCommandResult → RoomPage → RoomPage
    update_result (VoiceCommandResult.joined_voice (ok _)) r =
        change_participant r.user_id (λ p. record p { in_voice = true; is_muted = false }) r
    update_result (VoiceCommandResult.joined_voice (err _)) r = r
    update_result (VoiceCommandResult.left_voice (ok _)) r =
        change_participant r.user_id (λ p. record p { in_voice = false; is_muted = false }) r
    update_result (VoiceCommandResult.left_voice (err _)) r = r
    update_result (VoiceCommandResult.message_sent _) r = r
    update_result (VoiceCommandResult.pinged (ok rtt_ms)) r = record r { ping_ms = some rtt_ms }
    update_result (VoiceCommandResult.pinged (err _)) r = record r { ping_ms = none }
    update_result (VoiceCommandResult.voice_stats sent received) r = record r {
      bytes_sent = sent;
      bytes_received = received;
    }
    update_result (VoiceCommandResult.connected _) r = r

    unfoldable pub update_key : Key → RoomPage → RoomPage
    update_key f10 r = record r { overlay_visible = not r.overlay_visible }
    update_key _ r = r

    -- `collect` into a map: a later participant with the same number replaces an earlier one.
    unfoldable pub collect : List ParticipantInfo → tp.Map → tp.Map
    collect [] m = m
    collect (p ∷ ps) m = collect ps (tp.insert m p.user_id p)

    unfoldable pub update_event : ClientEvent → RoomPage → Task × RoomPage
    update_event (ClientEvent.participants_list user_id participants) r =
        (no_task, record r { user_id = user_id; participants = collect participants tp.empty })
    update_event (ClientEvent.joined_server user_id username) r = (
      no_task,
      record r {
        participants =
            tp.insert r.participants user_id (record {
              user_id = user_id;
              username = username;
              in_voice = false;
              is_muted = false;
            });
      },
    )
    update_event (ClientEvent.joined_voice user_id) r = (
      no_task,
      change_participant user_id (λ p. record p { in_voice = true; is_muted = false }) r,
    )
    update_event (ClientEvent.left_voice user_id) r = (
      no_task,
      change_participant user_id (λ p. record p { in_voice = false; is_muted = false }) r,
    )
    update_event (ClientEvent.left_server user_id) r =
        (no_task, record r { participants = tp.remove r.participants user_id })
    update_event (ClientEvent.sent_message user_id timestamp message) r =
        elim (tp.get r.participants user_id) [
          | some p ↦ (
            snap_to_end ∷ [],
            record r {
              chat_history =
                  tc.insert r.chat_history timestamp
                    (new_chat_message p.username message timestamp);
            },
          )
          | none ↦ (no_task, r)
        ]
    update_event (ClientEvent.mute_state user_id is_muted) r =
        (no_task, change_participant user_id (λ p. record p { is_muted = is_muted }) r)

    unfoldable pub update : Message.Message → RoomPage → Task × RoomPage
    update (Message.room_page m) r = update_page m r
    update (Message.voice_command_result result) r = (no_task, update_result result r)
    update (Message.key_pressed key) r = (no_task, update_key key r)
    update (Message.server_event_received event) r = update_event event r
    update _ r = (no_task, r)

    -- The page over the messages, one after the other, with what its tasks are to do.
    unfoldable pub updates : List Message.Message → RoomPage → Task × RoomPage
    updates [] r = (no_task, r)
    updates (m ∷ ms) r =
        let (task, r') = update m r in let (tasks, r'') = updates ms r' in (task ++ tasks, r'')
