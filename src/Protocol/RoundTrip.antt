-- ===== src/Protocol/RoundTrip.antt =====
-- `Packet::decode` reads back what `Packet::encode` wrote.
use voiceapp.Base.{
  ℕ, ◌+◌, ◌<◌, ◌≡◌, refl, ap, ◌∙◌, some, List, [], ◌∷◌, ◌++◌, append_assoc, arith, length,
  length-append, take-length-append, le→ltb, ok, All,
}
use voiceapp.Protocol.Bytes.{to_be_bytes}
use voiceapp.Protocol.PacketId.{PacketId, as_u8, try_from-as_u8}
use voiceapp.Protocol.Reader.{
  Reader, Read, ◌>>=◌, pure, read_u8, read_u16, read_u32, read_u64, read_bool, read_string,
  remaining,
}
use voiceapp.Protocol.Reader
use voiceapp.Protocol.Reader.Reads.{
  At, Reads, Reads-bind, Reads-last, Reads-u8, Reads-u16, Reads-u32, Reads-u64, Reads-bool,
  Reads-string, Reads-pure,
}
use voiceapp.Protocol.Reader.Finishes.{Finishes, Finishes-bind, Finishes-last}
use voiceapp.Protocol.Writer.Emits.{string_bytes}
use voiceapp.Protocol.Packet.{
  ParticipantInfo, Packet, id, packet_id, login_request, voice_auth_request,
  join_voice_channel_request, leave_voice_channel_request, chat_message_request, ping_request,
  login_response, voice_auth_response, join_voice_channel_response, leave_voice_channel_response,
  chat_message_response, ping_response, user_joined_server, user_joined_voice, user_left_voice,
  user_left_server, user_sent_message, user_mute_state, voice_data, encode, read_participant,
  read_participants, read_remaining, read_payload, to_packet_id, read_header, decode_payload,
  decode,
}
use voiceapp.Protocol.Sizes.{count-le}
use voiceapp.Protocol.Layout.{
  IsText, IsParticipant, IsWire, u64_bytes, participant_bytes, participants_bytes, payload, frame,
  max_payload,
}
use voiceapp.Protocol.Encoding.{fits_left, fits_right, frame_of_encode, fits_of_encode}

short_string : (s : List ℕ) → length (string_bytes s) < max_payload → length s < max_payload
short_string s h = fits_right (to_be_bytes 2 (length s)) s h

Reads-text :
    (s : List ℕ)
    → IsText s
    → length (string_bytes s) < max_payload
    → Reads read_string (string_bytes s) s
Reads-text s text h = Reads-string s text.1 (short_string s h)

Reads-participant :
    (p : ParticipantInfo)
    → IsParticipant p
    → length (participant_bytes p) < max_payload
    → Reads read_participant (participant_bytes p) p
unfolding read_participant participant_bytes
Reads-participant p wire h = Reads-bind _ _ (Reads-u64 p.user_id wire.user_id) (
    Reads-bind _ _
      (Reads-text p.username wire.username
        (fits_left (string_bytes p.username) _ (fits_right (u64_bytes p.user_id) _ h)))
      (Reads-bind _ _ (Reads-bool p.in_voice) (Reads-last _ _ (Reads-bool p.is_muted) refl)))

Reads-participants :
    (ps : List ParticipantInfo)
    → All IsParticipant ps
    → length (participants_bytes ps) < max_payload
    → Reads (read_participants (length ps)) (participants_bytes ps) ps
unfolding read_participants participants_bytes
Reads-participants [] wire h = Reads-pure []
Reads-participants (p ∷ ps) wire h =
    Reads-bind _ _ (Reads-participant p wire.0 (fits_left (participant_bytes p) _ h))
      (Reads-last _ _ (Reads-participants ps wire.1 (fits_right (participant_bytes p) _ h)) refl)

Finishes-remaining : (bs : List ℕ) → Finishes read_remaining bs bs
unfolding read_remaining remaining
Finishes-remaining bs = record { at = λ r here. (r, ap (λ (t : List ℕ). ok (t, r)) here.rest) }

Finishes-voice_data :
    (u sequence timestamp : ℕ) (opus_frame : List ℕ)
    → Finishes
        (read_remaining >>= λ opus. pure (voice_data u sequence timestamp opus))
        opus_frame
        (voice_data u sequence timestamp opus_frame)
unfolding ◌>>=◌ pure
Finishes-voice_data u sequence timestamp opus_frame = record {
  at = λ r here. let (r', e) = (Finishes-remaining opus_frame).at r here in (r', rw (e, ◌>>=◌));
}

Finishes-payload :
    (p : Packet)
    → IsWire p
    → length (payload p) < max_payload
    → Finishes (read_payload (packet_id p)) (payload p) p
unfolding read_payload payload packet_id
Finishes-payload (login_request r username) (hr, hu) h =
    Finishes-bind _ _ (Reads-u64 r hr)
      (Finishes-last _ _ (Reads-text username hu (fits_right (u64_bytes r) _ h)) refl)
Finishes-payload (voice_auth_request r token) (hr, ht) h =
    Finishes-bind _ _ (Reads-u64 r hr) (Finishes-last _ _ (Reads-u64 token ht) refl)
Finishes-payload (join_voice_channel_request r) hr h = Finishes-last _ _ (Reads-u64 r hr) refl
Finishes-payload (leave_voice_channel_request r) hr h = Finishes-last _ _ (Reads-u64 r hr) refl
Finishes-payload (chat_message_request r message) (hr, hm) h =
    Finishes-bind _ _ (Reads-u64 r hr)
      (Finishes-last _ _ (Reads-text message hm (fits_right (u64_bytes r) _ h)) refl)
Finishes-payload (ping_request r) hr h = Finishes-last _ _ (Reads-u64 r hr) refl
Finishes-payload (login_response r i token ps) (hr, hi, ht, hp) h =
    let rest = λ (h' : length (to_be_bytes 2 (length ps) ++ participants_bytes ps) < max_payload).
      fits_right (to_be_bytes 2 (length ps)) (participants_bytes ps) h' in
    let fits = rest (
      fits_right (u64_bytes token) _ (fits_right (u64_bytes i) _ (fits_right (u64_bytes r) _ h))) in
    Finishes-bind _ _ (Reads-u64 r hr) (
      Finishes-bind _ _ (Reads-u64 i hi) (
        Finishes-bind _ _ (Reads-u64 token ht) (
          Finishes-bind _ _ (Reads-u16 (length ps) (omega (arith, count-le ps, fits)))
            (Finishes-last _ _ (Reads-participants ps hp fits) refl))))
Finishes-payload (voice_auth_response r success) hr h =
    Finishes-bind _ _ (Reads-u64 r hr) (Finishes-last _ _ (Reads-bool success) refl)
Finishes-payload (join_voice_channel_response r success) hr h =
    Finishes-bind _ _ (Reads-u64 r hr) (Finishes-last _ _ (Reads-bool success) refl)
Finishes-payload (leave_voice_channel_response r success) hr h =
    Finishes-bind _ _ (Reads-u64 r hr) (Finishes-last _ _ (Reads-bool success) refl)
Finishes-payload (chat_message_response r success) hr h =
    Finishes-bind _ _ (Reads-u64 r hr) (Finishes-last _ _ (Reads-bool success) refl)
Finishes-payload (ping_response r) hr h = Finishes-last _ _ (Reads-u64 r hr) refl
Finishes-payload (user_joined_server p) hp h = Finishes-last _ _ (Reads-participant p hp h) refl
Finishes-payload (user_joined_voice u) hu h = Finishes-last _ _ (Reads-u64 u hu) refl
Finishes-payload (user_left_voice u) hu h = Finishes-last _ _ (Reads-u64 u hu) refl
Finishes-payload (user_left_server u) hu h = Finishes-last _ _ (Reads-u64 u hu) refl
Finishes-payload (user_sent_message u timestamp message) (hu, ht, hm) h =
    Finishes-bind _ _ (Reads-u64 u hu) (
      Finishes-bind _ _ (Reads-u64 timestamp ht) (
        Finishes-last _ _
          (Reads-text message hm
            (fits_right (u64_bytes timestamp) _ (fits_right (u64_bytes u) _ h)))
          refl))
Finishes-payload (user_mute_state u is_muted) hu h =
    Finishes-bind _ _ (Reads-u64 u hu) (Finishes-last _ _ (Reads-bool is_muted) refl)
Finishes-payload (voice_data u sequence timestamp opus_frame) (hu, hs, ht, ho) h =
    Finishes-bind _ _ (Reads-u64 u hu) (
      Finishes-bind _ _ (Reads-u32 sequence hs) (
        Finishes-bind _ _ (Reads-u32 timestamp ht)
          (Finishes-voice_data u sequence timestamp opus_frame)))

Reads-packet_id : (i : PacketId) → Reads (to_packet_id (as_u8 i)) [] i
unfolding to_packet_id
Reads-packet_id i = record {
  at = λ r rest here. (r, rw (try_from-as_u8 i, to_packet_id), omega arith, here);
}

-- The header of a frame.
Reads-header :
    (p : Packet) (n : ℕ)
    → n < max_payload
    → Reads read_header (id p ∷ to_be_bytes 2 n) (packet_id p, n)
unfolding read_header id
Reads-header p n h =
    Reads-bind _ _ (Reads-u8 (as_u8 (packet_id p)))
      (Reads-bind _ _ (Reads-packet_id (packet_id p)) (Reads-last _ _ (Reads-u16 n h) refl))

decode_payload_lem :
    (p : Packet) (header : Reader) (rest : List ℕ)
    → IsWire p
    → length (payload p) < max_payload
    → At header (payload p ++ rest)
    → decode_payload (packet_id p) (length (payload p)) header
      ≡ ok (p, header.pos + length (payload p))
unfolding decode_payload remaining
decode_payload_lem p header rest wire h here =
    let (r', e) =
      (Finishes-payload p wire h).at (Reader.new (payload p))
        (record { fits = omega arith; rest = refl }) in
    rw (
      here.rest,
      take-length-append (payload p) rest,
      e,
      le→ltb (length (payload p ++ rest)) (length (payload p))
          (omega (arith, length-append (payload p) rest)),
    )

-- A frame is decoded to its packet, whatever follows it, and all its bytes are consumed.
pub decode-frame :
    (p : Packet) (rest : List ℕ)
    → IsWire p
    → length (payload p) < max_payload
    → decode (frame p ++ rest) ≡ ok (p, length (frame p))
unfolding decode frame
decode-frame p rest wire h =
    let (header, e, moved, here) =
      (Reads-header p (length (payload p)) h).at (Reader.new (frame p ++ rest)) (payload p ++ rest)
        start in
    rw (e, decode)
      (decode_payload_lem p header rest wire h here
        ∙ ap (λ (n : ℕ). ok (p, n))
            (omega (arith, moved, length-append (to_be_bytes 2 (length (payload p))) (payload p))))
  where
    start :
        At
          (Reader.new (frame p ++ rest))
          ((id p ∷ to_be_bytes 2 (length (payload p))) ++ (payload p ++ rest))
    start = record {
      fits = omega arith;
      rest = ap (◌∷◌ (id p)) (append_assoc (to_be_bytes 2 (length (payload p))) (payload p) rest);
    }

-- What `encode` returned for a packet with its fields in range is decoded to that packet, whatever follows it in the stream, and all
-- of it is consumed.
pub decode-encode :
    (p : Packet) (bs rest : List ℕ)
    → IsWire p
    → encode p ≡ some bs
    → decode (bs ++ rest) ≡ ok (p, length bs)
decode-encode p bs rest wire e =
    rw (frame_of_encode p e) (decode-frame p rest wire (fits_of_encode p e))
