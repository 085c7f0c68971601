-- ===== src/Protocol/Stream/Chunks.antt =====
-- The stream loop of the server and of the client, over a stream that is cut into chunks anywhere.
use voiceapp.Base.{
  ℕ, zero, suc, ◌/◌, ◌%◌, ◌≤◌, ◌<◌, ◌≡◌, ◌≢◌, sym, ap, ◌∙◌, inl, inr, Option, none, some,
  Option-cases, List, [], ◌∷◌, ◌++◌, arith, length, take, drop, take-append, drop-append,
  take-append-drop, take-length-append, drop-length-append, Result-cases, ok, length-drop,
}
use voiceapp.Protocol.Bytes.{to_be_bytes}
use voiceapp.Protocol.Error.{incomplete_payload, packet_too_short, unknown_packet_id, invalid_utf8}
use voiceapp.Protocol.PacketId.{as_u8, try_from-as_u8}
use voiceapp.Protocol.Packet.{Packet, id, packet_id, decode}
use voiceapp.Protocol.Layout.{IsWire, payload, frame, max_payload}
use voiceapp.Protocol.Framing.{Waits, decode_partial}
use voiceapp.Protocol.Framing.Decoded.{Decoded-of_ok}
use voiceapp.Protocol.Stream.{Outcome, finished, panicked, stuck, process_loop, process, receive}

-- A packet that can be sent.
pub record IsSendable (p : Packet) : Type 0 where
  pub wire : IsWire p
  pub fits : length (payload p) < max_payload

unfoldable pub frames : List Packet → List ℕ
frames [] = []
frames (p ∷ ps) = frame p ++ frames ps

unfoldable pub concat : List (List ℕ) → List ℕ
concat [] = []
concat (c ∷ cs) = c ++ concat cs

module _ {ℓ} {S : Type ℓ} (handle : Packet → S → Option S) where
  -- The packets one by one.
  unfoldable pub handle_all : List Packet → S → Option S
  handle_all [] s = some s
  handle_all (p ∷ ps) s = elim (handle p s) [ none ↦ none | some s' ↦ handle_all ps s' ]

  -- Chunk after chunk, from a buffer with `buf` in it.
  unfoldable pub receive_all : List (List ℕ) → List ℕ → S → Outcome S
  receive_all [] buf s = finished buf s
  receive_all (c ∷ cs) buf s = elim (receive handle buf s c) [
    | finished buf' s' ↦ receive_all cs buf' s'
    | panicked ↦ panicked
    | stuck ↦ stuck
  ]

  -- The loop ends on every buffer: it never runs out of fuel.
  process_loop-ne-stuck :
      (fuel : ℕ) (buf : List ℕ) (s : S) → length buf < fuel → process_loop handle fuel buf s ≢ stuck
  unfolding process_loop
  process_loop-ne-stuck zero buf s h = elim h [ ]
  process_loop-ne-stuck (suc fuel) buf s h = elim (Result-cases (decode buf)) [
    | inl ((p, n), e) ↦
        let d = Decoded-of_ok buf p n e in
        elim (Option-cases (handle p s)) [
          | inl panic ↦ rw (e, process_loop) (rw panic (λ x. cc))
          | inr (s', go) ↦
              rw (e, process_loop)
                (rw go (
                  process_loop-ne-stuck fuel (drop n buf) s'
                    (omega (arith, length-drop n buf, d.consumed, ap length d.bytes))))
        ]
    | inr (incomplete_payload x y, e) ↦ rw (e, process_loop) (λ x. cc)
    | inr (packet_too_short x y, e) ↦ rw (e, process_loop) (λ x. cc)
    | inr (unknown_packet_id x, e) ↦ rw (e, process_loop) (λ x. cc)
    | inr (invalid_utf8, e) ↦ rw (e, process_loop) (λ x. cc)
  ]

  -- The loop over the packets of a buffer ends, on every buffer and with every handler of packets:
  -- its fuel is enough.
  pub process-ne-stuck : (buf : List ℕ) (s : S) → process handle buf s ≢ stuck
  unfolding process
  process-ne-stuck buf s = process_loop-ne-stuck (suc (length buf)) buf s (omega arith)

  pub loop-Waits :
      (fuel : ℕ) (buf : List ℕ) (s : S)
      → Waits (decode buf)
      → process_loop handle (suc fuel) buf s ≡ finished buf s
  unfolding process_loop
  loop-Waits fuel buf s w = elim (Result-cases (decode buf)) [
    | inl ((p, n), e) ↦ absurd (rw e at w)
    | inr (incomplete_payload x y, e) ↦ rw (e, process_loop)
    | inr (packet_too_short x y, e) ↦ rw (e, process_loop)
    | inr (unknown_packet_id x, e) ↦ absurd (rw e at w)
    | inr (invalid_utf8, e) ↦ absurd (rw e at w)
  ]

  pub loop_step :
      (fuel : ℕ) (buf : List ℕ) (s : S) {p : Packet} {n : ℕ}
      → decode buf ≡ ok (p, n)
      → process_loop handle (suc fuel) buf s
        ≡ elim (handle p s) [ none ↦ panicked | some s' ↦ process_loop handle fuel (drop n buf) s' ]
  unfolding process_loop
  loop_step fuel buf s e = rw (e, process_loop)

-- Less than the first packet of `ps`.
abbrev pub Short : List ℕ → List Packet → Type 0
Short buf [] = Unit {0}
Short buf (p ∷ ps) = length buf < length (frame p)

-- A cut frame is waited for.
pub frame_cut :
    (p : Packet) (buf back : List ℕ)
    → length (payload p) < max_payload
    → buf ++ back ≡ frame p
    → length buf < length (frame p)
    → Waits (decode buf)
unfolding frame to_be_bytes id
frame_cut p buf back fits e short =
    let n = length (payload p) in
    decode_partial (as_u8 (packet_id p)) (n / 256 % 256) (n % 256) buf back (payload p)
      (packet_id p) (try_from-as_u8 (packet_id p)) e (omega arith) (omega arith)

-- A buffer that is shorter than a frame is a part of it, if the stream goes on with that frame.
pub cut_of_stream :
    (buf more fr rest : List ℕ)
    → buf ++ more ≡ fr ++ rest
    → length buf < length fr
    → buf ++ drop (length buf) fr ≡ fr
cut_of_stream buf more fr rest e short =
    let same : buf ≡ take (length buf) fr =
      sym (take-length-append buf more)
      ∙ ap (take (length buf)) e
      ∙ take-append (length buf) fr rest (omega arith) in
    ap (λ (t : List ℕ). t ++ drop (length buf) fr) same ∙ take-append-drop (length buf) fr

-- A buffer that is no shorter starts with it.
pub whole_of_stream :
    (buf more fr rest : List ℕ)
    → buf ++ more ≡ fr ++ rest
    → length fr ≤ length buf
    → (fr ++ drop (length fr) buf ≡ buf) × (drop (length fr) buf ++ more ≡ rest)
whole_of_stream buf more fr rest e long =
    let same : take (length fr) buf ≡ fr =
      sym (take-append (length fr) buf more long)
      ∙ ap (take (length fr)) e
      ∙ take-length-append fr rest in
    (
      ap (λ (t : List ℕ). t ++ drop (length fr) buf) (sym same) ∙ take-append-drop (length fr) buf,
      sym (drop-append (length fr) buf more long)
          ∙ ap (drop (length fr)) e
          ∙ drop-length-append fr rest,
    )
