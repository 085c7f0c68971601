-- ===== src/Sdk/Api.antt =====
-- sdk/src/network/api_client.rs. The two clients that send a request and wait are parameters: what
-- they give back, for a request and the decoder of its response.
use voiceapp.Base.{ℕ, ◌+◌, ◌%◌, ◌^◌, Bool, true, false, Option, none, some, List, Result, ok, err}
use voiceapp.Protocol.Packet.{
  Packet, login_request, voice_auth_request, join_voice_channel_request,
  leave_voice_channel_request, chat_message_request, ping_request, login_response,
  voice_auth_response, ping_response, user_mute_state,
}
use voiceapp.Sdk.Error.{SdkError, connection_failed}

-- `fetch_add` on the counter: the number, and the counter after it.
unfoldable pub next_request_id : ℕ → ℕ × ℕ
next_request_id counter = (counter, (counter + 1) % 2 ^ 64)

unfoldable pub login_decoder : Packet → Option (ℕ × ℕ)
login_decoder (login_response _ id voice_token _) = some (id, voice_token)
login_decoder _ = none

unfoldable pub voice_auth_decoder : Packet → Option Bool
voice_auth_decoder (voice_auth_response _ success) = some success
voice_auth_decoder _ = none

unfoldable pub ping_decoder : Packet → Option (Unit {0})
ping_decoder (ping_response _) = some tt
ping_decoder _ = none

-- A call: the request that is made and the counter after it.
unfoldable pub authenticate_management : List ℕ → ℕ → Packet × ℕ
authenticate_management username counter =
    let (request_id, counter') = next_request_id counter in
    (login_request request_id username, counter')

unfoldable pub authenticate_voice : (voice_token : ℕ) → ℕ → Packet × ℕ
authenticate_voice voice_token counter =
    let (request_id, counter') = next_request_id counter in
    (voice_auth_request request_id voice_token, counter')

-- The end of `authenticate_voice`: a denial is an error.
unfoldable pub check_voice : Result Bool SdkError → Result (Unit {0}) SdkError
check_voice (ok true) = ok tt
check_voice (ok false) = err connection_failed
check_voice (err e) = err e

unfoldable pub join_channel : ℕ → Packet × ℕ
join_channel counter =
    let (request_id, counter') = next_request_id counter in
    (join_voice_channel_request request_id, counter')

unfoldable pub leave_channel : ℕ → Packet × ℕ
leave_channel counter =
    let (request_id, counter') = next_request_id counter in
    (leave_voice_channel_request request_id, counter')

unfoldable pub send_message : List ℕ → ℕ → Packet × ℕ
send_message message counter =
    let (request_id, counter') = next_request_id counter in
    (chat_message_request request_id message, counter')

unfoldable pub send_mute_state : (user_id : ℕ) → Bool → Packet
send_mute_state user_id is_muted = user_mute_state user_id is_muted

unfoldable pub ping : ℕ → Packet × ℕ
ping counter =
    let (request_id, counter') = next_request_id counter in (ping_request request_id, counter')
