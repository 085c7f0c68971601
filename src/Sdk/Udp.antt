-- ===== src/Sdk/Udp.antt =====
-- sdk/src/network/udp_client.rs
pub mod Retries
use voiceapp.Base.{
  ℕ, zero, suc, ◌+◌, ◌%◌, ◌^◌, Bool, true, false, Option, none, some, List, [], ◌∷◌, ◌++◌, length,
  if◌then◌else◌, Run, done, failed, panicked, Result, ok, err,
}
use voiceapp.Table.{Table}
use voiceapp.Protocol.Packet.{Packet, encode, decode, request_id, voice_auth_response}
use voiceapp.Sdk.Error.{
  SdkError, HandlerError, connection_failed, disconnected, timeout, write_error, read_error,
  parse_error, send_channel_closed,
}
use voiceapp.Sdk.Tcp.{Wait, answered, closed, timed_out}

abbrev pub max_retry_attempts : ℕ
max_retry_attempts = 3

module _ (tp : Table ℕ) where
  -- The state that the callers and the task share. The channels are logs.
  pub record UdpClient : Type 0 where
    pub pending_requests : tp.Map
    pub send_log : List (List ℕ)
    pub packets : List Packet
    pub responses : List (ℕ × Packet)
    pub bytes_sent : ℕ
    pub bytes_received : ℕ

  unfoldable pub new : UdpClient
  new = record {
    pending_requests = tp.empty;
    send_log = [];
    packets = [];
    responses = [];
    bytes_sent = 0;
    bytes_received = 0;
  }

  unfoldable pub get_stats : UdpClient → ℕ × ℕ
  get_stats c = (c.bytes_sent, c.bytes_received)

  -- What the environment gives a request: the number of the channel of each attempt, whether the
  -- channel of the task takes the bytes, and how the wait ends, with what the other tasks have
  -- made of the shared state by then.
  pub record Attempts : Type 0 where
    pub channel : ℕ → ℕ
    pub open_ : ℕ → Bool
    pub wait : ℕ → UdpClient → Wait × UdpClient

  unfoldable pub forget : ℕ → UdpClient → UdpClient
  forget id c = record c { pending_requests = tp.remove c.pending_requests id }

  -- The end of an attempt, with what is done on a timeout: the next attempts.
  unfoldable pub conclude :
      {T : Type 0}
      → (Packet → Option T)
      → ℕ
      → (UdpClient → Run UdpClient SdkError T)
      → Wait × UdpClient
      → Run UdpClient SdkError T
  conclude decoder id again (answered packet, c) = elim (decoder packet) [
    | none ↦ failed connection_failed (forget id c)
    | some t ↦ done t (forget id c)
  ]
  conclude decoder id again (closed, c) = failed disconnected (forget id c)
  conclude decoder id again (timed_out, c) = again (forget id c)

  -- `for attempt in …`, with the attempts that are left; the last failure is a timeout.
  unfoldable pub attempts :
      {T : Type 0}
      → Attempts
      → Packet
      → (Packet → Option T)
      → ℕ
      → ℕ
      → UdpClient
      → Run UdpClient SdkError T
  attempts env request decoder id zero c = failed timeout c
  attempts {T} env request decoder id (suc left) c =
      let c1 : UdpClient = record c {
        pending_requests = tp.insert c.pending_requests id (env.channel left);
      } in
      let again : UdpClient → Run UdpClient SdkError T =
        λ c'. attempts env request decoder id left c' in
      elim (encode request) [
        | none ↦ panicked c1
        | some bytes ↦
            if env.open_ left
            then conclude decoder id again
                (env.wait left (record c1 { send_log = c1.send_log ++ (bytes ∷ []) }))
            else failed disconnected c1
      ]

  unfoldable pub send_request_with_response :
      {T : Type 0} → Attempts → Packet → (Packet → Option T) → UdpClient → Run UdpClient SdkError T
  send_request_with_response env request decoder c = elim (request_id request) [
    | none ↦ failed connection_failed c
    | some id ↦ attempts env request decoder id max_retry_attempts c
  ]

  unfoldable pub handle_outgoing :
      (writable : Bool) → Option (List ℕ) → UdpClient → Run UdpClient HandlerError (Unit {0})
  handle_outgoing writable none c = failed send_channel_closed c
  handle_outgoing writable (some packet) c =
      if writable
      then done tt (record c { bytes_sent = (c.bytes_sent + length packet) % 2 ^ 64 })
      else failed write_error c

  unfoldable pub response_id : Packet → Option ℕ
  response_id (voice_auth_response request_id _) = some request_id
  response_id _ = none

  unfoldable pub broadcast : Packet → UdpClient → Run UdpClient HandlerError Bool
  broadcast packet c = done true (record c { packets = c.packets ++ (packet ∷ []) })

  unfoldable pub handle_packet : Packet → UdpClient → Run UdpClient HandlerError Bool
  handle_packet packet c = elim (response_id packet) [
    | none ↦ broadcast packet c
    | some req_id ↦ elim (tp.get c.pending_requests req_id) [
      | none ↦ broadcast packet c
      | some tx ↦ done true (record c {
        pending_requests = tp.remove c.pending_requests req_id;
        responses = c.responses ++ ((tx, packet) ∷ []);
      })
    ]
  ]

  -- `none` is a failed receive; no bytes end the task.
  unfoldable pub handle_incoming : Option (List ℕ) → UdpClient → Run UdpClient HandlerError Bool
  handle_incoming none c = failed read_error c
  handle_incoming (some []) c = done false c
  handle_incoming (some (b ∷ bs)) c =
      let c' : UdpClient = record c {
        bytes_received = (c.bytes_received + length (b ∷ bs)) % 2 ^ 64;
      } in
      elim (decode (b ∷ bs)) [
        | err e ↦ failed parse_error c'
        | ok (packet, _) ↦ handle_packet packet c'
      ]
