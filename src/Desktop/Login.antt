-- ===== src/Desktop/Login.antt =====
-- The login: desktop/src/view/login.rs without what is drawn, the commands of
-- desktop/src/state/voice_client.rs, and the start of desktop/src/application.rs. The answers of the
-- client library are a parameter.
pub mod Filled
pub mod Address
use voiceapp.Base.{
  ℕ, ◌==◌, ◌&&◌, not, Bool, true, false, if◌then◌else◌, Option, none, some, List, [], ◌∷◌, ◌++◌,
  length, Result, ok, err,
}
use voiceapp.Desktop.Message
use voiceapp.Desktop.Message.{
  String, ViewType, LoginPageMessage, VoiceCommand, VoiceCommandResult, Task, no_task, task_done,
  send, perform, tell_muted, listen_to_events,
}
use voiceapp.Desktop.Config.{ServerConfig, is_credentials_filled}

abbrev pub colon : ℕ
colon = 58

-- ":9001" and ":9002"
abbrev pub management_port : String
management_port = colon ∷ 57 ∷ 48 ∷ 48 ∷ 49 ∷ []

abbrev pub voice_port : String
voice_port = colon ∷ 57 ∷ 48 ∷ 48 ∷ 50 ∷ []

abbrev pub connect_to : String → String → VoiceCommand
connect_to address username =
    VoiceCommand.connect (address ++ management_port) (address ++ voice_port) username

pub record LoginPage : Type 0 where
  pub voice_url : String
  pub username : String
  pub form_filled : Bool
  pub login_error : String

unfoldable pub is_form_filled : LoginPage → Bool
is_form_filled p = not (length p.username == 0) && not (length p.voice_url == 0)

unfoldable pub new : ServerConfig → LoginPage
new c =
    let page : LoginPage = record {
      voice_url = c.address;
      username = c.username;
      form_filled = false;
      login_error = [];
    } in
    record page { form_filled = is_form_filled page }

-- `Application::init` and `LoginPage::on_open` both do this.
unfoldable pub auto_login : ServerConfig → Task
auto_login c =
    if is_credentials_filled c
    then task_done (Message.execute_voice_command (connect_to c.address c.username))
    else no_task

-- `form_filled` is computed again.
unfoldable pub refill : LoginPage → LoginPage
refill p = record p { form_filled = is_form_filled p; login_error = [] }

unfoldable pub update_page : LoginPageMessage → LoginPage → Task × LoginPage
update_page (LoginPageMessage.voice_url_changed content) p =
    (no_task, refill (record p { voice_url = content }))
update_page (LoginPageMessage.username_changed content) p =
    (no_task, refill (record p { username = content }))
update_page LoginPageMessage.login_submitted p =
    if p.form_filled
    then (task_done (Message.execute_voice_command (connect_to p.voice_url p.username)), p)
    else (no_task, p)

unfoldable pub update : Message.Message → LoginPage → Task × LoginPage
update (Message.login_page m) p = update_page m p
update (Message.voice_command_result (VoiceCommandResult.connected (ok _))) p =
    (task_done (Message.switch_view ViewType.room), p)
update (Message.voice_command_result (VoiceCommandResult.connected (err error))) p =
    (no_task, record p { login_error = error })
update _ p = (no_task, p)

unfoldable pub updates : List Message.Message → LoginPage → Task × LoginPage
updates [] p = (no_task, p)
updates (m ∷ ms) p =
    let (task, p') = update m p in let (tasks, p'') = updates ms p' in (task ++ tasks, p'')

-- `management_addr.split(':').next()`: what stands before the first colon.
unfoldable pub before_colon : String → String
before_colon [] = []
before_colon (b ∷ bs) = let rest = before_colon bs in if b == colon then [] else (b ∷ rest)

-- What the client answers to a command.
pub record Client : Type 0 where
  pub connect : String → String → String → Result ℕ String
  pub join_channel : Result (Unit {0}) String
  pub leave_channel : Result (Unit {0}) String
  pub send_message : String → Result (Unit {0}) String
  pub ping : Result ℕ String
  pub get_voice_stats : ℕ × ℕ

-- The message that the program gets, once the client has answered.
unfoldable pub handle_voice_command : Client → VoiceCommand → VoiceCommandResult
handle_voice_command client (VoiceCommand.connect management_addr voice_addr username) =
    elim (client.connect management_addr voice_addr username) [
      | ok user_id ↦
          VoiceCommandResult.connected (ok (user_id, before_colon management_addr, username))
      | err e ↦ VoiceCommandResult.connected (err e)
    ]
handle_voice_command client VoiceCommand.join_voice_channel =
    VoiceCommandResult.joined_voice client.join_channel
handle_voice_command client VoiceCommand.leave_voice_channel =
    VoiceCommandResult.left_voice client.leave_channel
handle_voice_command client (VoiceCommand.send_chat_message message) =
    VoiceCommandResult.message_sent (client.send_message message)
handle_voice_command client VoiceCommand.ping = VoiceCommandResult.pinged client.ping
handle_voice_command client VoiceCommand.get_voice_stats =
    let stats = client.get_voice_stats in VoiceCommandResult.voice_stats stats.0 stats.1

-- `VoiceClientState::update`: the statistics are read at once, the rest is performed later.
unfoldable pub update_client : Client → Message.Message → Task
update_client client (Message.execute_voice_command VoiceCommand.get_voice_stats) =
    task_done
      (Message.voice_command_result (handle_voice_command client VoiceCommand.get_voice_stats))
update_client client (Message.execute_voice_command command) = perform command ∷ []
update_client client (Message.mute_input muted) = tell_muted muted ∷ []
update_client client _ = no_task

-- `Application::init`: only the client's state has a task of its own.
unfoldable pub init : ServerConfig → Task
init c = (listen_to_events ∷ []) ++ auto_login c
