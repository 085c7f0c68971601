-- ===== src/Protocol/Writer.antt =====
-- protocol/src/io/writer.rs: a growing buffer. `none` is a panic (`expect`, or an index out of
-- range).
pub mod Emits
use voiceapp.Base.{
  ℕ, ◌+◌, ◌^◌, Bool, Option, none, some, List, [], ◌∷◌, ◌++◌, ltb, leb, if◌then◌else◌, length, take,
  drop,
}
use voiceapp.Protocol.Bytes.{to_be_bytes}

pub record Writer : Type 0 where
  pub buf : List ℕ

abbrev pub new : Writer
new = record { buf = [] }

abbrev pub Write : Type 0
Write = Writer → Option Writer

infixl 5 ◌>>◌
unfoldable pub ◌>>◌ : Write → Write → Write
◌>>◌ m k w = elim (m w) [ none ↦ none | some w' ↦ k w' ]

-- A write of nothing, as of an empty list.
unfoldable pub done : Write
done w = some w

-- `buf.extend_from_slice(bytes)`
unfoldable pub write_bytes : List ℕ → Write
write_bytes bytes w = some (record w { buf = w.buf ++ bytes })

unfoldable pub write_u8 : ℕ → Write
write_u8 value w = some (record w { buf = w.buf ++ value ∷ [] })

unfoldable pub write_u16 : ℕ → Write
write_u16 value = write_bytes (to_be_bytes 2 value)

unfoldable pub write_u32 : ℕ → Write
write_u32 value = write_bytes (to_be_bytes 4 value)

unfoldable pub write_u64 : ℕ → Write
write_u64 value = write_bytes (to_be_bytes 8 value)

abbrev pub from_bool : Bool → ℕ
from_bool b = if b then 1 else 0

unfoldable pub write_bool : Bool → Write
write_bool value w = some (record w { buf = w.buf ++ from_bool value ∷ [] })

-- `n.try_into().expect(…)` to a u16, and what is done with it.
unfoldable pub with_u16 : ℕ → (ℕ → Write) → Write
with_u16 n k w = if ltb n (2 ^ 16) then k n w else none

unfoldable pub write_string : List ℕ → Write
write_string s = do with_u16 (length s) write_u16; write_bytes s

unfoldable pub position : Writer → ℕ
position w = length w.buf

unfoldable pub reserve_u16 : Writer → ℕ × Writer
reserve_u16 w = (length w.buf, record w { buf = w.buf ++ 0 ∷ 0 ∷ [] })

unfoldable pub write_u16_at : ℕ → ℕ → Write
write_u16_at pos value w =
    if leb (pos + 2) (length w.buf)
    then some (record w { buf = take pos w.buf ++ to_be_bytes 2 value ++ drop (pos + 2) w.buf })
    else none
