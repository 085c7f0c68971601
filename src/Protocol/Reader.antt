-- ===== src/Protocol/Reader.antt =====
-- protocol/src/io/reader.rs: a cursor over a byte slice.
-- A read that fails ends the decoding, so the cursor that it leaves is never looked at.
pub mod Reads
pub mod Finishes
pub mod Yields
use voiceapp.Base.{
  ℕ, ◌+◌, Bool, not, none, some, List, leb, ◌==◌, if◌then◌else◌, length, take, drop, get_elem?,
  Result, ok, err,
}
use voiceapp.Protocol.Bytes.{from_be_bytes}
use voiceapp.Protocol.Utf8.{is_utf8}
use voiceapp.Protocol.Error.{ProtocolError, packet_too_short, invalid_utf8}

pub record Reader : Type 0 where
  pub bytes : List ℕ
  pub pos : ℕ

abbrev pub new : List ℕ → Reader
new bytes = record { bytes = bytes; pos = 0 }

abbrev pub Read {ℓ} : Type ℓ → Type ℓ
Read A = Reader → Result (A × Reader) ProtocolError

infixl 5 ◌>>=◌
unfoldable pub ◌>>=◌ {ℓ κ} : {A : Type ℓ} {B : Type κ} → Read A → (A → Read B) → Read B
◌>>=◌ m f r = elim (m r) [ ok (a, r') ↦ f a r' | err e ↦ err e ]

unfoldable pub pure {ℓ} : {A : Type ℓ} → A → Read A
pure a r = ok (a, r)

unfoldable pub read_u8 : Read ℕ
read_u8 r = elim (get_elem? r.bytes r.pos) [
  | none ↦ err (packet_too_short (r.pos + 1) (length r.bytes))
  | some value ↦ ok (value, record r { pos = r.pos + 1 })
]

-- `data.get(pos..pos + n)`, its error and the advance, as `read_u16` to `read_string` have them.
unfoldable pub read_slice : ℕ → Read (List ℕ)
read_slice n r =
    if leb (r.pos + n) (length r.bytes)
    then ok (take n (drop r.pos r.bytes), record r { pos = r.pos + n })
    else err (packet_too_short (r.pos + n) (length r.bytes))

unfoldable pub read_u16 : Read ℕ
read_u16 = do bytes ← read_slice 2; pure (from_be_bytes bytes)

unfoldable pub read_u32 : Read ℕ
read_u32 = do bytes ← read_slice 4; pure (from_be_bytes bytes)

unfoldable pub read_u64 : Read ℕ
read_u64 = do bytes ← read_slice 8; pure (from_be_bytes bytes)

unfoldable pub read_bool : Read Bool
read_bool = do value ← read_u8; pure (not (value == 0))

from_utf8 : List ℕ → Read (List ℕ)
from_utf8 bytes r = if is_utf8 bytes then ok (bytes, r) else err invalid_utf8

unfoldable pub read_string : Read (List ℕ)
unfolding from_utf8
read_string = do len ← read_u16; bytes ← read_slice len; from_utf8 bytes

unfoldable pub remaining : Reader → List ℕ
remaining r = drop r.pos r.bytes
