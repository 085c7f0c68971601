-- ===== src/Sdk/Tcp.antt =====
-- sdk/src/network/tcp_client.rs: the task behind the connection, and the caller of a request.
-- A one-shot channel is a number; what is sent on it is a log.
pub mod Delivers
pub mod Responses
use voiceapp.Base.{
  ℕ, Bool, true, false, Option, none, some, List, [], ◌∷◌, ◌++◌, if◌then◌else◌, Run, done, failed,
  panicked, Result, ok, err,
}
use voiceapp.Table.{Table}
use voiceapp.Protocol.Packet.{Packet, encode, request_id}
use voiceapp.Protocol.Stream.{Outcome, finished, stuck, receive}
use voiceapp.Protocol.Stream
use voiceapp.Sdk.Error.{
  SdkError, HandlerError, connection_failed, disconnected, timeout, write_error, read_error,
  send_channel_closed,
}

-- What a caller puts on the channel of the task: the bytes, and for a request its number with the
-- channel for the response.
abbrev pub Outgoing : Type 0
Outgoing = List ℕ × Option (ℕ × ℕ)

-- `send_event`
unfoldable pub send_event : Packet → Option Outgoing
send_event packet = elim (encode packet) [ none ↦ none | some encoded ↦ some (encoded, none) ]

-- `send_request` up to the wait. The outer `none` is a panic.
unfoldable pub send_request : Packet → ℕ → Option (Result Outgoing SdkError)
send_request request response_tx = elim (request_id request) [
  | none ↦ some (err connection_failed)
  | some id ↦ elim (encode request) [
    | none ↦ none
    | some encoded ↦ some (ok (encoded, some (id, response_tx)))
  ]
]

-- How the wait for the one-shot channel ends.
pub data Wait : Type 0 where
  answered : Packet → Wait
  closed timed_out : Wait

unfoldable pub wait_for_response : Wait → Result Packet SdkError
wait_for_response (answered packet) = ok packet
wait_for_response closed = err disconnected
wait_for_response timed_out = err timeout

-- `send_request_with_response`, after the request: the decoder's error is a text.
unfoldable pub decode_response : {T : Type 0} → (Packet → Option T) → Wait → Result T SdkError
decode_response decoder w = elim (wait_for_response w) [
  | err e ↦ err e
  | ok packet ↦ elim (decoder packet) [ none ↦ err connection_failed | some t ↦ ok t ]
]

module _ (tp : Table ℕ) where
  pub record TcpHandler : Type 0 where
    pub pending_responses : tp.Map
    pub packets : List Packet
    pub responses : List (ℕ × Packet)
    pub written : List ℕ

  unfoldable pub new : TcpHandler
  new = record { pending_responses = tp.empty; packets = []; responses = []; written = [] }

  unfoldable pub register : Option (ℕ × ℕ) → TcpHandler → TcpHandler
  register none s = s
  register (some (expected_request_id, tx)) s = record s {
    pending_responses = tp.insert s.pending_responses expected_request_id tx;
  }

  -- `none` is the error of a closed channel.
  unfoldable pub handle_outgoing :
      (writable : Bool) → Option Outgoing → TcpHandler → Run TcpHandler HandlerError (Unit {0})
  handle_outgoing writable none s = failed send_channel_closed s
  handle_outgoing writable (some (packet, response_callback)) s =
      let s' = register response_callback s in
      if writable
      then done tt (record s' { written = s'.written ++ packet })
      else failed write_error s'

  -- A packet that came: to the caller that waits for its number, if one does.
  unfoldable pub respond : Packet → TcpHandler → TcpHandler
  respond packet s = elim (request_id packet) [
    | none ↦ s
    | some req_id ↦ elim (tp.get s.pending_responses req_id) [
      | none ↦ s
      | some tx ↦ record s {
        pending_responses = tp.remove s.pending_responses req_id;
        responses = s.responses ++ ((tx, packet) ∷ []);
      }
    ]
  ]

  -- The body of the loop over the complete packets: every packet goes on to the event handler.
  unfoldable pub handle_packet : Packet → TcpHandler → Option TcpHandler
  handle_packet packet s =
      let s' = respond packet s in some (record s' { packets = s'.packets ++ (packet ∷ []) })

  -- The task: with the bytes of a packet that is not complete.
  pub record TcpTask : Type 0 where
    pub handler : TcpHandler
    pub accumulator : List ℕ

  -- The loop ends on every buffer, so `stuck` does not come.
  unfoldable pub continue : Outcome TcpHandler → TcpTask → Run TcpTask HandlerError Bool
  continue (finished rest s) k = done true (record { handler = s; accumulator = rest })
  continue Stream.panicked k = panicked k
  continue stuck k = panicked k

  -- `none` is a failed read, and no bytes are the end of the stream; else whether to go on.
  unfoldable pub handle_incoming : Option (List ℕ) → TcpTask → Run TcpTask HandlerError Bool
  handle_incoming none k = failed read_error k
  handle_incoming (some []) k = done false k
  handle_incoming (some (b ∷ bs)) k =
      continue (receive handle_packet k.accumulator k.handler (b ∷ bs)) k

  -- The turns of the task's loop.
  pub data Turn : Type 0 where
    outgoing : (writable : Bool) → Option Outgoing → Turn
    incoming : Option (List ℕ) → Turn

  -- The state in which the task goes on; `none` when it ended.
  unfoldable pub turn : Turn → TcpTask → Option TcpTask
  turn (outgoing writable result) k = elim (handle_outgoing writable result k.handler) [
    | done _ s ↦ some (record k { handler = s })
    | failed _ _ ↦ none
    | panicked _ ↦ none
  ]
  turn (incoming result) k = elim (handle_incoming result k) [
    | done should_continue k' ↦ if should_continue then some k' else none
    | failed _ _ ↦ none
    | panicked _ ↦ none
  ]

  unfoldable pub run : List Turn → TcpTask → Option TcpTask
  run [] k = some k
  run (x ∷ xs) k = elim (turn x k) [ none ↦ none | some k' ↦ run xs k' ]
