-- ===== src/Desktop/Samples.antt =====
-- desktop/src/audio/common.rs and output.rs: the choice of a configuration of a sound device, and the
-- filling of the buffers of samples. The arithmetic on samples, which are floats, is a parameter, and
-- so are the values of a device.
pub mod Best
pub mod Ranking
pub mod Fill
use voiceapp.Base.{
  ℕ, zero, suc, ◌+◌, ◌-◌, ◌*◌, ◌/◌, ◌==◌, ◌&&◌, leb, min, Bool, true, false, if◌then◌else◌, Option,
  none, some, List, [], ◌∷◌, ◌++◌, length, take, drop, Result, ok, err,
}

abbrev pub target_sample_rate : ℕ
target_sample_rate = 48000

-- The formats that the code names, and all others.
pub data SampleFormat : Type 0 where
  f32 i16 u16 : SampleFormat
  other_format : ℕ → SampleFormat

pub record StreamConfigRange : Type 0 where
  pub sample_format : SampleFormat
  pub min_sample_rate : ℕ
  pub max_sample_rate : ℕ
  pub channels : ℕ

abbrev pub is_format : SampleFormat → SampleFormat → Bool
is_format f32 f32 = true
is_format i16 i16 = true
is_format u16 u16 = true
is_format (other_format a) (other_format b) = a == b
is_format _ _ = false

-- A rate and a format; no rate means any rate.
abbrev pub Priority : Type 0
Priority = Option ℕ × SampleFormat

abbrev pub priorities : List Priority
priorities =
    (some target_sample_rate, f32)
    ∷ (some target_sample_rate, i16)
    ∷ (some target_sample_rate, u16)
    ∷ (none, f32)
    ∷ []

abbrev pub Best : Type 0
Best = ℕ × SampleFormat × ℕ

-- The body of the inner loop.
unfoldable pub try_config : Priority → StreamConfigRange → Option Best
try_config (target_rate, format) config =
    if is_format config.sample_format format
    then elim target_rate [
      | some rate ↦
          if leb config.min_sample_rate rate && leb rate config.max_sample_rate
          then some (rate, format, config.channels)
          else none
      | none ↦ some (config.max_sample_rate, format, config.channels)
    ]
    else none

unfoldable pub try_configs : Priority → List StreamConfigRange → Option Best
try_configs p [] = none
try_configs p (config ∷ configs) = elim (try_config p config) [
  | some best ↦ some best
  | none ↦ try_configs p configs
]

unfoldable pub try_priorities : List Priority → List StreamConfigRange → Option Best
try_priorities [] configs = none
try_priorities (p ∷ ps) configs = elim (try_configs p configs) [
  | some best ↦ some best
  | none ↦ try_priorities ps configs
]

unfoldable pub find_best_stream_config : List StreamConfigRange → Option Best
find_best_stream_config [] = none
find_best_stream_config (config ∷ configs) = elim (try_priorities priorities (config ∷ configs)) [
  | some best ↦ some best
  | none ↦ some (config.max_sample_rate, config.sample_format, config.channels)
]

-- A source of frames of samples; `none` is its error.
pub record AudioSource (Sample : Type 0) : Type 1 where
  pub State : Type 0
  pub silence : Sample
  pub get_audio : State → Option (List Sample) × State

module _ {Sample : Type 0} (source : AudioSource Sample) where
  -- What filling a buffer leaves: what was written, the samples that are left over, and the source.
  -- `stuck` is no outcome of the program: the fuel ran out.
  pub data Filled : Type 0 where
    filled : (written leftover : List Sample) → source.State → Filled
    stuck : Filled

  unfoldable pub silent : ℕ → List Sample
  silent zero = []
  silent (suc n) = source.silence ∷ silent n

  -- `missing` is the rest of the buffer, `written` the part before `idx`.
  unfoldable pub fill_loop : ℕ → ℕ → List Sample → List Sample → source.State → Filled
  fill_loop zero missing written leftover s = stuck
  fill_loop (suc fuel) zero written leftover s = filled written leftover s
  fill_loop (suc fuel) (suc more) written leftover s =
      let missing = suc more in
      let copy = λ (frame : List Sample) (s' : source.State).
        let n = min (length frame) missing in
        let next = fill_loop fuel (missing - n) (written ++ take n frame) (drop n frame) s' in
        if n == 0 then filled (written ++ silent missing) frame s' else next in
      let given = source.get_audio s in
      if length leftover == 0
      then elim given.0 [
        | some frame ↦ copy frame given.1
        | none ↦ filled (written ++ silent missing) leftover given.1
      ]
      else copy leftover s

  -- Each round writes a sample at least, so one more round than the buffer is long is enough.
  unfoldable pub fill_output : ℕ → List Sample → source.State → Filled
  fill_output size leftover s = fill_loop (suc size) size [] leftover s
