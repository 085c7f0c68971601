-- ===== src/Protocol/Stream.antt =====
-- The loop that takes the complete packets out of a buffer of received bytes. The server
-- (server/src/management/handler.rs) and the client (sdk/src/network/tcp_client.rs) both have it;
-- they differ in what they do with a packet, which is the parameter `handle`. There `none` is a
-- panic.
pub mod Chunks
pub mod Delivery
use voiceapp.Base.{
  ◌≡◌, refl, ◌⊎◌, inl, inr, ℕ, zero, suc, Option, none, some, List, [], ◌++◌, drop, length, ok, err,
}
use voiceapp.Protocol.Error.{incomplete_payload, packet_too_short}
use voiceapp.Protocol.Packet.{Packet, decode}

-- How a run of the loop ends: with the bytes that are left and the state. `stuck` is no outcome of
-- the program: the fuel ran out.
pub data Outcome {ℓ} (S : Type ℓ) : Type ℓ where
  finished : List ℕ → S → Outcome S
  panicked stuck : Outcome S

pub Outcome-cases {ℓ} :
    {S : Type ℓ} (o : Outcome S)
    → ((rest : List ℕ) × (s : S) × (o ≡ finished rest s)) ⊎ ((o ≡ panicked) ⊎ (o ≡ stuck))
Outcome-cases (finished rest s) = inl (rest, s, refl)
Outcome-cases panicked = inr (inl refl)
Outcome-cases stuck = inr (inr refl)

module _ {ℓ} {S : Type ℓ} (handle : Packet → S → Option S) where
  unfoldable pub process_loop : ℕ → List ℕ → S → Outcome S
  process_loop zero buf s = stuck
  process_loop (suc fuel) buf s = elim (decode buf) [
    | ok (packet, size) ↦ elim (handle packet s) [
      | none ↦ panicked
      | some s' ↦ process_loop fuel (drop size buf) s'
    ]
    | err (incomplete_payload _ _) ↦ finished buf s
    | err (packet_too_short _ _) ↦ finished buf s
    | err _ ↦ finished [] s
  ]

  -- Each packet takes three bytes at least, so one more round than there are bytes is enough.
  unfoldable pub process : List ℕ → S → Outcome S
  process buf s = process_loop (suc (length buf)) buf s

  -- The bytes arrive in chunks: each is put behind what was left of the buffer.
  unfoldable pub receive : List ℕ → S → List ℕ → Outcome S
  receive buf s chunk = process (buf ++ chunk) s
