-- ===== src/Protocol/Soundness.antt =====
-- What `Packet::decode` (protocol/src/packet.rs) returns: a packet whose fields are in range and
-- which can be encoded again.
mod Payload
use voiceapp.Base.{
  ℕ, suc, ◌+◌, ◌≤◌, ◌<◌, ◌≡◌, refl, ◌∙◌, ap, some, List, [], ◌∷◌, ◌++◌, arith, length, length-take,
  take, All, All-take, ok, append-nil, subst,
}
use voiceapp.Protocol.Bytes.{IsByte}
use voiceapp.Protocol.Reader
use voiceapp.Protocol.Reader.Yields.{Yields}
use voiceapp.Protocol.Packet.{Packet, encode, decode}
use voiceapp.Protocol.Layout.{IsWire, payload, frame, max_payload}
use voiceapp.Protocol.Sizes.{payload_size, length-payload}
use voiceapp.Protocol.Encoding.{encode-fits}
use voiceapp.Protocol.RoundTrip.{decode-frame}
use voiceapp.Protocol.Framing.{declared}
use voiceapp.Protocol.Framing.Decoded.{Decoded, Decoded-of_ok}
use Payload.{Spans, Spans-size, Yields-payload}

-- A decoded packet has its fields in range; it comes from a frame of n bytes, which lie within the
-- buffer, and its payload is no larger than the declared one.
pub record IsSound (buf : List ℕ) (p : Packet) (n : ℕ) : Type 0 where
  pub wire : IsWire p
  pub size : payload_size p + 3 ≤ n
  pub within : n ≤ length buf
  pub bounded : n < max_payload + 3

Decoded-IsSound :
    (buf : List ℕ) (p : Packet) (n : ℕ) → All IsByte buf → Decoded buf p n → IsSound buf p n
Decoded-IsSound buf p n bytes d = record {
  wire = ends.holds.wire;
  size = omega (arith, d.consumed, fits, taken);
  within = omega (arith, d.consumed, d.arrived, ap length d.bytes);
  bounded = omega (arith, d.consumed, d.declares, header_bytes.1, header_bytes.2);
}
  where
    all : All IsByte (d.header.0 ∷ d.header.1 ∷ d.header.2 ∷ d.rest)
    all = subst (All IsByte) d.bytes bytes

    header_bytes : (d.header.0 < 256) × (d.header.1 < 256) × (d.header.2 < 256)
    header_bytes = (all.0, all.1.0, all.1.1.0)

    body : List ℕ
    body = take d.size d.rest

    body_bytes : All IsByte body
    body_bytes = All-take IsByte d.size d.rest all.1.1.1

    taken : length body ≡ d.size
    taken = length-take d.size d.rest d.arrived

    ends : Reader.Yields.Ends body p d.end (Spans body body_bytes d.packet_id)
    ends = (Yields-payload body body_bytes d.packet_id).at p d.end (omega arith) d.read

    fits : payload_size p ≤ length body
    fits = Spans-size body body_bytes d.packet_id ends.end p ends.holds ends.within

-- On bytes, `decode` returns a packet with its fields in range, and consumes a whole frame of
-- them.
pub decode-IsSound :
    (buf : List ℕ) (p : Packet) (n : ℕ) → All IsByte buf → decode buf ≡ ok (p, n) → IsSound buf p n
decode-IsSound buf p n bytes e = Decoded-IsSound buf p n bytes (Decoded-of_ok buf p n e)

-- A packet that was decoded from bytes can be encoded without a panic, and decoded once more.
pub decode_again :
    (buf : List ℕ) (p : Packet) (n : ℕ)
    → All IsByte buf
    → decode buf ≡ ok (p, n)
    → (encode p ≡ some (frame p)) × (decode (frame p) ≡ ok (p, length (frame p)))
decode_again buf p n bytes e =
    let sound = decode-IsSound buf p n bytes e in
    let fits : length (payload p) < max_payload =
      omega (arith, length-payload p, sound.size, sound.bounded) in
    (
      encode-fits p fits,
      subst (λ bs. decode bs ≡ ok (p, length (frame p))) (append-nil (frame p))
          (decode-frame p [] sound.wire fits),
    )
