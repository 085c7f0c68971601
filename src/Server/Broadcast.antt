-- ===== src/Server/Broadcast.antt =====
-- server/src/management/broadcast.rs. `none` is the panic of `Packet::encode`. A socket address is a
-- number.
use voiceapp.Base.{ℕ, ◌==◌, Bool, true, not, Option, none, some, List}
use voiceapp.Protocol.Packet.{Packet, encode}

pub record BroadcastMessage : Type 0 where
  pub exclude : Option ℕ
  pub data_ : List ℕ

unfoldable pub for_all : Packet → Option BroadcastMessage
for_all packet = elim (encode packet) [
  | none ↦ none
  | some bytes ↦ some (record { exclude = none; data_ = bytes })
]

unfoldable pub excluding : ℕ → Packet → Option BroadcastMessage
excluding sender packet = elim (encode packet) [
  | none ↦ none
  | some bytes ↦ some (record { exclude = some sender; data_ = bytes })
]

unfoldable pub should_send_to : BroadcastMessage → ℕ → Bool
should_send_to message addr = elim message.exclude [ none ↦ true | some a ↦ not (a == addr) ]
