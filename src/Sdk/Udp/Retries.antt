-- ===== src/Sdk/Udp/Retries.antt =====
-- The request over UDP: how often it is sent, and what it leaves behind.
use voiceapp.Base.{
  ℕ, zero, suc, ◌≡◌, ◌∙◌, inl, inr, true, Option, none, some, Option-cases, List, Run, done, failed,
  panicked, arith,
}
use voiceapp.Table.{Table}
use voiceapp.Protocol.Packet.{Packet, encode, request_id}
use voiceapp.Sdk.Error.{SdkError}
use voiceapp.Sdk.Tcp.{Wait, answered, closed, timed_out}
use voiceapp.Sdk.Udp.{
  UdpClient, Attempts, forget, conclude, attempts, send_request_with_response, max_retry_attempts,
}

module _ (tp : Table ℕ) where
  -- What a request leaves: no callback of its own, but on a panic and when the task is gone.
  abbrev pub Clean : {T : Type 0} → ℕ → Run (UdpClient tp) SdkError T → Type 0
  Clean id (done _ c) = tp.get c.pending_requests id ≡ none
  Clean id (failed _ c) = tp.get c.pending_requests id ≡ none
  Clean id (panicked _) = ⊥

  forgotten : (id : ℕ) (c : UdpClient tp) → tp.get (forget tp id c).pending_requests id ≡ none
  unfolding forget
  forgotten id c = tp.get-remove c.pending_requests id id ∙ ground arith

  conclude-Clean :
      {T : Type 0} (decoder : Packet → Option T) (id : ℕ)
      (again : UdpClient tp → Run (UdpClient tp) SdkError T) (w : Wait) (c : UdpClient tp)
      → Clean id (again (forget tp id c))
      → Clean id (conclude tp decoder id again (w, c))
  unfolding conclude
  conclude-Clean decoder id again (answered p) c h = elim (Option-cases (decoder p)) [
    | inl e ↦ rw (e, conclude, Clean) (forgotten id c)
    | inr (x, e) ↦ rw (e, conclude, Clean) (forgotten id c)
  ]
  conclude-Clean decoder id again closed c h = forgotten id c
  conclude-Clean decoder id again timed_out c h = h

  attempts-Clean :
      {T : Type 0} (env : Attempts tp) (request : Packet) (decoder : Packet → Option T)
      (id left : ℕ) (c : UdpClient tp) {bytes : List ℕ}
      → encode request ≡ some bytes
      → ((n : ℕ) → env.open_ n ≡ true)
      → tp.get c.pending_requests id ≡ none
      → Clean id (attempts tp env request decoder id left c)
  unfolding attempts
  attempts-Clean env request decoder id zero c e opens h = h
  attempts-Clean env request decoder id (suc left) c {bytes} e opens h =
      rw (e, attempts, Clean)
        (rw (opens left) (
          conclude-Clean decoder id _ _ _
            (attempts-Clean env request decoder id left _ e opens (forgotten id _))))

  -- A request over UDP that has a number and can be encoded, while the channel to the task is open
  -- and nothing waits for its number yet: there is no panic, and whatever the
  -- other tasks do meanwhile, and whether it is answered, the channel of the response is closed or every
  -- attempt times out, its callback is not left in the map.
  pub send_request-Clean :
      {T : Type 0} (env : Attempts tp) (request : Packet) (decoder : Packet → Option T) (id : ℕ)
      (c : UdpClient tp) (bytes : List ℕ)
      → request_id request ≡ some id
      → encode request ≡ some bytes
      → ((n : ℕ) → env.open_ n ≡ true)
      → tp.get c.pending_requests id ≡ none
      → Clean id (send_request_with_response tp env request decoder c)
  unfolding send_request_with_response
  send_request-Clean env request decoder id c bytes known e opens h =
      rw (known, send_request_with_response, Clean)
        (attempts-Clean env request decoder id max_retry_attempts c e opens h)
