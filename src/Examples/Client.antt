-- ===== src/Examples/Client.antt =====
-- The client's tasks at chosen packets.
use voiceapp.Base.{ℕ, ◌≡◌, ◌≢◌, refl, true, none, some, [], ◌∷◌, Member, arith, length, ◌<◌}
use voiceapp.Table.Assoc.{assoc}
use voiceapp.Protocol.Bytes.{to_be_bytes}
use voiceapp.Protocol.Packet.{
  Packet, request_id, ping_response, user_joined_voice, voice_auth_request,
}
use voiceapp.Protocol.Layout.{payload, frame, max_payload}
use voiceapp.Protocol.Encoding.{encode-fits}
use voiceapp.Protocol.Stream.Chunks.{frames, concat}
use voiceapp.Sdk.Tcp.{TcpHandler, run, timed_out}
use voiceapp.Sdk.Tcp.Delivers.{reads, deliver, run-packets}
use voiceapp.Sdk.Tcp.Responses.{deliver_first}
use voiceapp.Sdk.Udp
use voiceapp.Sdk.Udp.{UdpClient, Attempts, send_request_with_response}
use voiceapp.Sdk.Udp.Retries.{Clean, send_request-Clean}

-- A client that waits on channel 3 for the response to its request 1.
abbrev waiting : TcpHandler (assoc ℕ)
waiting = record { pending_responses = (1, 3) ∷ []; packets = []; responses = []; written = [] }

abbrev news : Packet
news = user_joined_voice 4

news_fits : length (payload news) < max_payload
unfolding payload to_be_bytes
news_fits = omega arith

news_bytes : frame news ≢ []
unfolding frame
news_bytes e = absurd (cc)

run-packets_example :
    (s' : TcpHandler (assoc ℕ)) × (run
        (assoc ℕ)
        (reads (assoc ℕ) (frame news ∷ []))
        (record { handler = waiting; accumulator = [] })
      ≡ some (record { handler = s'; accumulator = [] }))
    × (s'.packets ≡ news ∷ [])
unfolding frames concat frame
run-packets_example =
    run-packets (assoc ℕ) (frame news ∷ []) (news ∷ []) waiting
      (record { wire = omega arith; fits = news_fits }, tt) (news_bytes, tt) refl

deliver_first_example :
    Member (3, ping_response 1) (deliver (assoc ℕ) (news ∷ ping_response 1 ∷ []) waiting).responses
    × ((assoc ℕ).get (deliver (assoc ℕ) (news ∷ ping_response 1 ∷ []) waiting).pending_responses 1
        ≡ none)
unfolding request_id
deliver_first_example =
    deliver_first (assoc ℕ) (news ∷ []) [] (ping_response 1) waiting 1 3 refl refl (no_id, tt)
  where
    no_id : request_id news ≢ some 1
    no_id e = absurd (cc)

-- An environment in which no attempt is answered.
abbrev silence : Attempts (assoc ℕ)
silence = record { channel = λ n. n; open_ = λ n. true; wait = λ n c. (timed_out, c) }

send_request-Clean_example :
    Clean (assoc ℕ) 5 (
      send_request_with_response
        (assoc ℕ)
        silence
        (voice_auth_request 5 9)
        some
        (Udp.new (assoc ℕ)))
unfolding request_id Udp.new payload to_be_bytes
send_request-Clean_example =
    send_request-Clean (assoc ℕ) silence (voice_auth_request 5 9) some 5 (Udp.new (assoc ℕ))
      (frame (voice_auth_request 5 9)) refl (encode-fits (voice_auth_request 5 9) (omega arith))
      (λ n. refl) refl
