-- ===== src/Examples/Wire.antt =====
-- The wire format and the stream loop at chosen packets.
use voiceapp.Base.{ℕ, ◌≡◌, ◌≢◌, refl, Option, some, List, [], ◌∷◌, ◌++◌, length, All, ok, arith}
use voiceapp.Protocol.Bytes.{IsByte, to_be_bytes}
use voiceapp.Protocol.Utf8.{is_utf8}
use voiceapp.Protocol.PacketId
use voiceapp.Protocol.PacketId.{try_from, as_u8, as_u8-try_from, try_from-as_u8}
use voiceapp.Protocol.Packet.{Packet, encode, decode, login_request, ping_request, id, packet_id}
use voiceapp.Protocol.Layout.{payload, frame, frame?}
use voiceapp.Protocol.Encoding.{encode-frame?, encode-fits}
use voiceapp.Protocol.RoundTrip.{decode-encode, decode-frame}
use voiceapp.Protocol.Soundness.{IsSound, decode-IsSound, decode_again}
use voiceapp.Protocol.Framing.{decode_settled}
use voiceapp.Protocol.Stream.{stuck, process}
use voiceapp.Protocol.Stream.Chunks.{frames, concat, handle_all, receive_all, process-ne-stuck}
use voiceapp.Protocol.Stream.Delivery.{delivered, receive_all-frames}

abbrev greeting : Packet
greeting = login_request 7 (104 ∷ 105 ∷ [])

abbrev question : Packet
question = ping_request 258

-- The bytes of `question`.
abbrev question_bytes : List ℕ
question_bytes = 6 ∷ 0 ∷ 8 ∷ 0 ∷ 0 ∷ 0 ∷ 0 ∷ 0 ∷ 0 ∷ 1 ∷ 2 ∷ []

question-frame : frame question ≡ question_bytes
unfolding frame payload to_be_bytes id packet_id as_u8
question-frame = refl

question_decodes : decode (question_bytes ++ []) ≡ ok (question, length question_bytes)
unfolding frame payload to_be_bytes id packet_id as_u8
question_decodes = decode-frame question [] (omega arith) (omega arith)

encode-frame?_example : encode question ≡ frame? question
encode-frame?_example = encode-frame? question

decode-encode_example : decode (frame greeting ++ (9 ∷ [])) ≡ ok (greeting, length (frame greeting))
unfolding is_utf8 payload to_be_bytes
decode-encode_example =
    decode-encode greeting (frame greeting) (9 ∷ [])
      (omega arith, ((omega arith, (omega arith, tt)), refl)) (encode-fits greeting (omega arith))

abbrev question_bytes-IsByte : All IsByte question_bytes
question_bytes-IsByte = (
  omega arith,
  (
    omega arith,
    (
      omega arith,
      (
        omega arith,
        (
          omega arith,
          (
            omega arith,
            (omega arith, (omega arith, (omega arith, (omega arith, (omega arith, tt))))),
          ),
        ),
      ),
    ),
  ),
)

decode-IsSound_example : IsSound question_bytes question 11
decode-IsSound_example =
    decode-IsSound question_bytes question 11 question_bytes-IsByte question_decodes

decode_again_example :
    (encode question ≡ some (frame question))
    × (decode (frame question) ≡ ok (question, length (frame question)))
decode_again_example =
    decode_again question_bytes question 11 question_bytes-IsByte question_decodes

-- A ping with a payload that is too short: more bytes do not mend it.
decode_settled_example : decode ((6 ∷ 0 ∷ 1 ∷ 5 ∷ []) ++ (0 ∷ 0 ∷ [])) ≡ decode (6 ∷ 0 ∷ 1 ∷ 5 ∷ [])
decode_settled_example = decode_settled 6 0 1 (5 ∷ []) (0 ∷ 0 ∷ []) (omega arith)

try_from-as_u8_example : try_from (as_u8 PacketId.voice_data) ≡ ok PacketId.voice_data
try_from-as_u8_example = try_from-as_u8 PacketId.voice_data

as_u8-try_from_example : as_u8 PacketId.ping_request ≡ 6
unfolding try_from
as_u8-try_from_example = as_u8-try_from 6 PacketId.ping_request refl

-- A handler that keeps the packets.
abbrev keep : Packet → List Packet → Option (List Packet)
keep p ps = some (ps ++ (p ∷ []))

process-ne-stuck_example : process keep question_bytes [] ≢ stuck
process-ne-stuck_example = process-ne-stuck keep question_bytes []

receive_all-frames_example :
    receive_all keep ((6 ∷ 0 ∷ []) ∷ (8 ∷ 0 ∷ 0 ∷ 0 ∷ 0 ∷ 0 ∷ 0 ∷ 1 ∷ []) ∷ (2 ∷ []) ∷ []) [] []
    ≡ delivered keep (handle_all keep (question ∷ []) [])
unfolding frames concat frame payload to_be_bytes id packet_id as_u8
receive_all-frames_example =
    receive_all-frames keep ((6 ∷ 0 ∷ []) ∷ (8 ∷ 0 ∷ 0 ∷ 0 ∷ 0 ∷ 0 ∷ 0 ∷ 1 ∷ []) ∷ (2 ∷ []) ∷ [])
      (question ∷ []) [] (record { wire = omega arith; fits = omega arith }, tt) refl
