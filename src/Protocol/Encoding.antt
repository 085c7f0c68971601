-- ===== src/Protocol/Encoding.antt =====
-- `Packet::encode` writes the frame of the wire format, and panics exactly when the payload does
-- not fit its 16-bit length.
use voiceapp.Base.{
  ℕ, ◌<◌, ◌≡◌, ◌∙◌, inl, inr, none, some, List, [], ◌∷◌, ◌++◌, arith, length, length-append, ltb,
  lt→ltb, ltb→lt, if◌then◌else◌, Bool-cases,
}
use voiceapp.Protocol.Bytes.{to_be_bytes}
use voiceapp.Protocol.Writer.{
  Writer, Write, ◌>>◌, write_u64, write_string, write_u8, with_u16, position, reserve_u16,
  write_u16_at,
}
use voiceapp.Protocol.Writer.Emits.{
  Emits, Attempts, string_bytes, emits_rules, attempts_rules, Emits-then, Emits-done,
  Emits-write_bool, Emits-write_string, Emits-with_u16, Attempts_of_Emits, Attempts-then,
  Emits-write_u64, Attempts-with_u16,
}
use voiceapp.Protocol.Packet.{
  ParticipantInfo, Packet, id, login_request, chat_message_request, login_response,
  user_joined_server, user_sent_message, write_participant, write_participants, write_payload,
  patch_length, reserve_and_write, encode,
}
use voiceapp.Protocol.Sizes.{count-le}
use voiceapp.Protocol.Layout.{
  participant_bytes, participants_bytes, u64_bytes, payload, frame, frame?, max_payload,
}

Attempts-participant : (p : ParticipantInfo) → Attempts (write_participant p) (participant_bytes p)
unfolding write_participant participant_bytes
Attempts-participant p = search attempts_rules

Attempts-participants :
    (ps : List ParticipantInfo) → Attempts (write_participants ps) (participants_bytes ps)
unfolding write_participants participants_bytes
Attempts-participants [] = search attempts_rules
Attempts-participants (p ∷ ps) =
    search (attempts_rules, Attempts-participant p, Attempts-participants ps)

Attempts-payload : (p : Packet) → Attempts (write_payload p) (payload p)
unfolding write_payload payload
Attempts-payload (login_response r i token ps) =
    let u64 = λ (v : ℕ). Attempts_of_Emits (Emits-write_u64 v) in
    Attempts-then (u64 r) (
      Attempts-then (u64 i) (
        Attempts-then (u64 token)
          (Attempts-then (Attempts-with_u16 (length ps)) (Attempts-participants ps))))
Attempts-payload (user_joined_server p) = Attempts-participant p
Attempts-payload _ = search attempts_rules

-- The reserved length is filled in, or `try_into` fails.
patch_length_lem :
    (i : ℕ) (bs : List ℕ)
    → patch_length 1 3 (record { buf = i ∷ 0 ∷ 0 ∷ bs })
      ≡ (if ltb (length bs) max_payload then some (i ∷ to_be_bytes 2 (length bs) ++ bs) else none)
unfolding patch_length with_u16 position write_u16_at
patch_length_lem i bs = ground arith

pub fits_left : {n : ℕ} (xs ys : List ℕ) → length (xs ++ ys) < n → length xs < n
fits_left xs ys h = omega (arith, length-append xs ys)

pub fits_right : {n : ℕ} (xs ys : List ℕ) → length (xs ++ ys) < n → length ys < n
fits_right xs ys h = omega (arith, length-append xs ys)

-- A payload that fits has no string that is too long, and not too many participants.
Emits-string :
    (s : List ℕ) → length (string_bytes s) < max_payload → Emits (write_string s) (string_bytes s)
Emits-string s h = Emits-write_string s (fits_right (to_be_bytes 2 (length s)) s h)

Emits-u64_then :
    {k : Write} {bs : List ℕ} (v : ℕ)
    → (length bs < max_payload → Emits k bs)
    → length (u64_bytes v ++ bs) < max_payload
    → Emits (write_u64 v >> k) (u64_bytes v ++ bs)
Emits-u64_then {bs} v e h = Emits-then (Emits-write_u64 v) (e (fits_right (u64_bytes v) bs h))

Emits-participant :
    (p : ParticipantInfo)
    → length (participant_bytes p) < max_payload
    → Emits (write_participant p) (participant_bytes p)
unfolding write_participant participant_bytes
Emits-participant p = Emits-u64_then p.user_id λ h.
    Emits-then (Emits-string p.username (fits_left (string_bytes p.username) _ h))
      (Emits-then (Emits-write_bool p.in_voice) (Emits-write_bool p.is_muted))

Emits-participants :
    (ps : List ParticipantInfo)
    → length (participants_bytes ps) < max_payload
    → Emits (write_participants ps) (participants_bytes ps)
unfolding write_participants participants_bytes
Emits-participants [] h = Emits-done
Emits-participants (p ∷ ps) h =
    Emits-then (Emits-participant p (fits_left (participant_bytes p) _ h))
      (Emits-participants ps (fits_right (participant_bytes p) _ h))

Emits-payload :
    (p : Packet) → length (payload p) < max_payload → Emits (write_payload p) (payload p)
unfolding write_payload payload
Emits-payload (login_request r username) = Emits-u64_then r (Emits-string username)
Emits-payload (chat_message_request r message) = Emits-u64_then r (Emits-string message)
Emits-payload (user_sent_message u timestamp message) =
    Emits-u64_then u (Emits-u64_then timestamp (Emits-string message))
Emits-payload (login_response r i token ps) = Emits-u64_then r (
    Emits-u64_then i (
      Emits-u64_then token λ h.
        Emits-then
          (Emits-with_u16 (length ps)
            (omega (arith, count-le ps, fits_right (to_be_bytes 2 (length ps)) _ h)))
          (Emits-participants ps (fits_right (to_be_bytes 2 (length ps)) _ h))))
Emits-payload (user_joined_server p) = Emits-participant p
Emits-payload _ = λ h. search emits_rules

-- What `encode` returns is the frame of the packet if its payload has at most 65535 bytes, and it
-- panics otherwise.
pub encode-frame? : (p : Packet) → encode p ≡ frame? p
unfolding encode reserve_and_write reserve_u16 write_u8 position frame
encode-frame? p =
    let w : Writer = record { buf = id p ∷ 0 ∷ 0 ∷ [] } in
    elim (Bool-cases (ltb (length (payload p)) max_payload)) [
      | inl fits ↦
          rw ((Emits-payload p (ltb→lt _ _ fits)).at w, reserve_and_write)
            (patch_length_lem (id p) (payload p))
      | inr over ↦ elim ((Attempts-payload p).at w) [
        | inl panic ↦ rw (panic, reserve_and_write, over)
        | inr e ↦ rw (e, reserve_and_write) (patch_length_lem (id p) (payload p))
      ]
    ]

pub encode-fits : (p : Packet) → length (payload p) < max_payload → encode p ≡ some (frame p)
encode-fits p h = encode-frame? p ∙ rw (lt→ltb _ _ h)

pub frame_of_encode : (p : Packet) {bs : List ℕ} → encode p ≡ some bs → bs ≡ frame p
frame_of_encode p e = ground (arith, encode-frame? p)

pub fits_of_encode :
    (p : Packet) {bs : List ℕ} → encode p ≡ some bs → length (payload p) < max_payload
fits_of_encode p e = ground (arith, encode-frame? p)
