-- ===== src/Protocol/Framing/Decoded.antt =====
-- What a success of `Packet::decode` (protocol/src/packet.rs) says of the buffer.
use voiceapp.Base.{
  ℕ, ◌+◌, ◌≤◌, ◌≡◌, refl, sym, ◌∙◌, List, [], ◌∷◌, length, take, ltb, Result, ok, err, Bool-cases,
  inl, inr, Result-cases, ltb→le, ◌≢◌,
}
use voiceapp.Protocol.Error.{ProtocolError}
use voiceapp.Protocol.PacketId.{PacketId, try_from}
use voiceapp.Protocol.Reader.{Reader, ◌>>=◌, pure, read_u8, read_slice, read_u16, remaining}
use voiceapp.Protocol.Reader
use voiceapp.Protocol.Packet.{Packet, read_header, read_payload, decode}
use voiceapp.Protocol.Framing.{
  declared, body, finish, Waits, decode-header, decode_unknown, decode_short1, decode_short2,
}

-- What a decoding that succeeded went through.
pub record Decoded (buf : List ℕ) (p : Packet) (n : ℕ) : Type 0 where
  pub size : ℕ
  pub packet_id : PacketId
  pub header : ℕ × ℕ × ℕ
  pub rest : List ℕ
  pub end : Reader
  pub bytes : buf ≡ header.0 ∷ header.1 ∷ header.2 ∷ rest
  pub known : try_from header.0 ≡ ok packet_id
  pub declares : declared header.1 header.2 ≡ size
  pub arrived : size ≤ length rest
  pub consumed : n ≡ 3 + size
  pub read : read_payload packet_id (Reader.new (take size rest)) ≡ ok (p, end)

not_ok_of_Waits : (r : Result (Packet × ℕ) ProtocolError) {x : Packet × ℕ} → Waits r → r ≢ ok x
not_ok_of_Waits (ok y) w e = w
not_ok_of_Waits (err x) w e = cc

not_ok_short :
    (b0 : ℕ) (bs : List ℕ) {x : Packet × ℕ}
    → ((i : PacketId) → try_from b0 ≡ ok i → Waits (decode (b0 ∷ bs)))
    → decode (b0 ∷ bs) ≢ ok x
not_ok_short b0 bs waits e = elim (Result-cases (try_from b0)) [
  | inl (i, known) ↦ not_ok_of_Waits _ (waits i known) e
  | inr (x, unknown) ↦ cc (e, decode_unknown b0 bs x unknown)
]

Decoded-of_body :
    (b0 b1 b2 : ℕ) (rest : List ℕ) (i : PacketId) (p : Packet) (n : ℕ)
    → try_from b0 ≡ ok i
    → body (declared b1 b2) i rest ≡ ok (p, n)
    → Decoded (b0 ∷ b1 ∷ b2 ∷ rest) p n
unfolding body finish
Decoded-of_body b0 b1 b2 rest i p n known e' =
    elim (Bool-cases (ltb (length rest) (declared b1 b2))) [
      | inl short ↦ absurd (cc (rw (short, body) at e'))
      | inr full ↦ elim (Result-cases (read_payload i (Reader.new (take (declared b1 b2) rest)))) [
        | inl ((q, end), read) ↦
            let e'' : ◌≡◌ {A = Result (Packet × ℕ) ProtocolError} (ok (q, 3 + (declared b1 b2)))
                (ok (p, n)) =
              rw (full, body, finish, read) at e' in
            record {
              size = declared b1 b2;
              packet_id = i;
              header = (b0, b1, b2);
              rest = rest;
              end = end;
              bytes = refl;
              known = known;
              declares = refl;
              arrived = ltb→le _ _ full;
              consumed = cc;
              read = read ∙ cc;
            }
        | inr (x, fails) ↦ absurd (cc (rw (full, body, finish, fails) at e'))
      ]
    ]

-- Every decoding that succeeded has a whole frame in front of it.
pub Decoded-of_ok : (buf : List ℕ) (p : Packet) (n : ℕ) → decode buf ≡ ok (p, n) → Decoded buf p n
Decoded-of_ok [] p n e =
    absurd (not_ok_of_Waits (decode []) (unfold decode read_header ◌>>=◌ read_u8 in tt) e)
Decoded-of_ok (b0 ∷ []) p n e = absurd (not_ok_short b0 [] (decode_short1 b0) e)
Decoded-of_ok (b0 ∷ b1 ∷ []) p n e = absurd (not_ok_short b0 (b1 ∷ []) (decode_short2 b0 b1) e)
Decoded-of_ok (b0 ∷ b1 ∷ b2 ∷ rest) p n e = elim (Result-cases (try_from b0)) [
  | inl (i, known) ↦
      Decoded-of_body b0 b1 b2 rest i p n known (sym (decode-header b0 b1 b2 rest i known) ∙ e)
  | inr (x, unknown) ↦ absurd (cc (e, decode_unknown b0 (b1 ∷ b2 ∷ rest) x unknown))
]
