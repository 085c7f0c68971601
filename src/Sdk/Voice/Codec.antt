-- ===== src/Sdk/Voice/Codec.antt =====
-- sdk/src/voice/opus_consts.rs, and what the code uses of the codec and the resampler.
use voiceapp.Base.{ℕ, ◌*◌, ◌/◌, ◌≤◌, ◌≡◌, Option, some, List, All, length}
use voiceapp.Protocol.Bytes.{IsByte}

abbrev pub opus_sample_rate : ℕ
opus_sample_rate = 48000

abbrev pub opus_frame_length_ms : ℕ
opus_frame_length_ms = 20

abbrev pub opus_frame_size : ℕ
opus_frame_size = opus_sample_rate / 1000 * opus_frame_length_ms

abbrev pub max_opus_frame : ℕ
max_opus_frame = 4000

-- The codec has a state of its own; it gives bytes, no more than the buffer that it is handed,
-- or an error.
pub record Codec (Sample : Type 0) : Type 1 where
  pub State : Type 0
  pub silence : Sample
  pub encode_float : List Sample → State → Option (List ℕ) × State
  pub encode_float_bytes :
      (xs : List Sample) (s : State) {bytes : List ℕ}
      → (encode_float xs s).0 ≡ some bytes
      → All IsByte bytes × (length bytes ≤ max_opus_frame)

-- A resampler of chunks; `none` is its error.
pub record Resampler (Sample : Type 0) : Type 1 where
  pub State : Type 0
  pub process : List Sample → State → Option (List Sample) × State
