-- ===== src/Protocol/Framing.antt =====
-- `Packet::decode` seen from its first three bytes.
pub mod Decoded
use voiceapp.Base.{
  ℕ, zero, suc, ◌+◌, ◌*◌, ◌^◌, ◌≤◌, ◌<◌, ◌≡◌, refl, sym, ap, ◌∙◌, subst, List, [], ◌∷◌, ◌++◌, arith,
  length, length-append, take, drop, take-append, ltb, leb, le→leb, le→ltb, lt→ltb, Result, ok, err,
  All, true, false, if◌then◌else◌, Bool-cases, inl, inr, Result-cases, ltb→lt, ◌≢◌, ◌⊎◌,
}
use voiceapp.Protocol.Bytes.{IsByte, from_be_bytes}
use voiceapp.Protocol.Error.{ProtocolError, packet_too_short, unknown_packet_id, incomplete_payload}
use voiceapp.Protocol.PacketId.{PacketId, try_from}
use voiceapp.Protocol.Reader.{Reader, ◌>>=◌, pure, read_u8, read_slice, read_u16, remaining}
use voiceapp.Protocol.Reader
use voiceapp.Protocol.Packet.{
  Packet, to_packet_id, read_header, read_payload, decode_payload, decode,
}

-- The length that a header declares.
abbrev pub declared : ℕ → ℕ → ℕ
declared b1 b2 = b1 * 256 + b2

-- The payload as it is decoded, with the bytes that its frame takes.
unfoldable pub finish : ℕ → PacketId → List ℕ → Result (Packet × ℕ) ProtocolError
finish n i bs = elim (read_payload i (Reader.new bs)) [ ok (p, r) ↦ ok (p, 3 + n) | err e ↦ err e ]

-- The body behind a full header: incomplete, or decoded from its declared part alone.
unfoldable pub body : ℕ → PacketId → List ℕ → Result (Packet × ℕ) ProtocolError
body n i rest =
    if ltb (length rest) n
    then err (incomplete_payload n (length rest))
    else finish n i (take n rest)

read_header_full :
    (b0 b1 b2 : ℕ) (rest : List ℕ) (i : PacketId)
    → try_from b0 ≡ ok i
    → read_header (Reader.new (b0 ∷ b1 ∷ b2 ∷ rest))
      ≡ ok ((i, declared b1 b2), record { bytes = b0 ∷ b1 ∷ b2 ∷ rest; pos = 3 })
unfolding read_header to_packet_id read_u8 read_u16 read_slice pure ◌>>=◌ from_be_bytes
read_header_full b0 b1 b2 rest i e =
    rw (e, read_header, ◌>>=◌, to_packet_id)
      (rw
        (
          le→leb 3 (suc (suc (suc (length rest)))) (omega arith),
          read_header,
          ◌>>=◌,
          read_u16,
          read_slice,
        )
        (ap (λ (v : ℕ). ok ((i, v), record { bytes = b0 ∷ b1 ∷ b2 ∷ rest; pos = 3 }))
          (omega arith)))

pub decode_unknown :
    (b0 : ℕ) (rest : List ℕ) (e : ProtocolError) → try_from b0 ≡ err e → decode (b0 ∷ rest) ≡ err e
unfolding decode read_header to_packet_id read_u8 ◌>>=◌
decode_unknown b0 rest e h = rw (h, decode, read_header, ◌>>=◌, to_packet_id)

pub decode-header :
    (b0 b1 b2 : ℕ) (rest : List ℕ) (i : PacketId)
    → try_from b0 ≡ ok i
    → decode (b0 ∷ b1 ∷ b2 ∷ rest) ≡ body (declared b1 b2) i rest
unfolding decode decode_payload remaining body finish
decode-header b0 b1 b2 rest i h = rw (read_header_full b0 b1 b2 rest i h, decode)

try_from_error : (b : ℕ) (e : ProtocolError) → try_from b ≡ err e → e ≡ unknown_packet_id b
unfolding try_from
try_from_error b e h = ground arith

-- A frame whose declared part has arrived is decoded from that part alone.
pub body-append :
    (n : ℕ) (i : PacketId) (rest more : List ℕ)
    → n ≤ length rest
    → body n i (rest ++ more) ≡ body n i rest
unfolding body
body-append n i rest more h = rw (
  le→ltb (length (rest ++ more)) n (omega (arith, length-append rest more)),
  le→ltb (length rest) n h,
  take-append n rest more h,
)

body_incomplete :
    (n : ℕ) (i : PacketId) (rest : List ℕ)
    → length rest < n
    → body n i rest ≡ err (incomplete_payload n (length rest))
unfolding body
body_incomplete n i rest h = rw (lt→ltb (length rest) n h)

-- The results on which the stream loops wait for more bytes.
abbrev pub Waits : Result (Packet × ℕ) ProtocolError → Type 0
Waits (err (incomplete_payload e g)) = Unit {0}
Waits (err (packet_too_short e g)) = Unit {0}
Waits _ = ⊥

-- Once the declared part of a frame has arrived, bytes behind it do not change the result.
pub decode_settled :
    (b0 b1 b2 : ℕ) (rest more : List ℕ)
    → declared b1 b2 ≤ length rest
    → decode ((b0 ∷ b1 ∷ b2 ∷ rest) ++ more) ≡ decode (b0 ∷ b1 ∷ b2 ∷ rest)
decode_settled b0 b1 b2 rest more h = elim (Result-cases (try_from b0)) [
  | inl (i, known) ↦
      decode-header b0 b1 b2 (rest ++ more) i known
      ∙ body-append (declared b1 b2) i rest more h
      ∙ sym (decode-header b0 b1 b2 rest i known)
  | inr (e, unknown) ↦
      decode_unknown b0 (b1 ∷ b2 ∷ (rest ++ more)) e unknown
      ∙ sym (decode_unknown b0 (b1 ∷ b2 ∷ rest) e unknown)
]

pub decode_short2 : (b0 b1 : ℕ) (i : PacketId) → try_from b0 ≡ ok i → Waits (decode (b0 ∷ b1 ∷ []))
unfolding decode read_header to_packet_id read_u8 read_u16 read_slice ◌>>=◌
decode_short2 b0 b1 i h = rw (h, decode, read_header, ◌>>=◌, to_packet_id) tt

pub decode_short1 : (b0 : ℕ) (i : PacketId) → try_from b0 ≡ ok i → Waits (decode (b0 ∷ []))
unfolding decode read_header to_packet_id read_u8 read_u16 read_slice ◌>>=◌
decode_short1 b0 i h = rw (h, decode, read_header, ◌>>=◌, to_packet_id) tt

-- Of a frame that has not arrived whole, with a known identifier, `decode` says to wait.
pub decode_partial :
    (b0 b1 b2 : ℕ) (front back rest : List ℕ) (i : PacketId)
    → try_from b0 ≡ ok i
    → front ++ back ≡ b0 ∷ b1 ∷ b2 ∷ rest
    → length rest ≡ declared b1 b2
    → length front < length rest + 3
    → Waits (decode front)
unfolding decode read_header read_u8 ◌>>=◌
decode_partial b0 b1 b2 [] back rest i known e len h = tt
decode_partial b0 b1 b2 (c0 ∷ []) back rest i known e len h =
    let e0 : b0 ≡ c0 = cc in subst (λ b. Waits (decode (b ∷ []))) e0 (decode_short1 b0 i known)
decode_partial b0 b1 b2 (c0 ∷ c1 ∷ []) back rest i known e len h =
    let e0 : b0 ≡ c0 = cc in
    subst (λ b. Waits (decode (b ∷ c1 ∷ []))) e0 (decode_short2 b0 c1 i known)
decode_partial b0 b1 b2 (c0 ∷ c1 ∷ c2 ∷ cs) back rest i known e len h =
    let e0 : b0 ≡ c0 = cc in
    let e1 : b1 ≡ c1 = cc in
    let e2 : b2 ≡ c2 = cc in
    rw
      (
        decode-header c0 c1 c2 cs i (subst (λ b. try_from b ≡ ok i) e0 known),
        body_incomplete (declared c1 c2) i cs (omega (arith, e1, e2)),
      )
      tt
