-- ===== src/Sdk/Voice/Encoder.antt =====
-- sdk/src/voice/encoder.rs
use voiceapp.Base.{
  ℕ, zero, suc, ◌+◌, ◌-◌, ◌*◌, ◌%◌, ◌^◌, ◌≤◌, ◌≡◌, refl, inl, inr, none, some, Option-cases, List,
  [], ◌∷◌, ◌++◌, length, length-append, ltb, Bool-cases, if◌then◌else◌, Result, ok, err, arith,
}
use voiceapp.Sdk.Error.{SdkError, encoder_error, invalid_input}
use voiceapp.Sdk.Voice.Codec.{Codec, opus_frame_size, max_opus_frame}

-- sdk/src/voice/models.rs
pub record VoiceData : Type 0 where
  pub sequence : ℕ
  pub timestamp : ℕ
  pub user_id : ℕ
  pub opus_frame : List ℕ

module _ {Sample : Type 0} (c : Codec Sample) where
  pub record Encoder : Type 0 where
    pub encoder : c.State
    pub sequence : ℕ
    pub timestamp : ℕ

  abbrev pub new : c.State → Encoder
  new encoder = record { encoder = encoder; sequence = 0; timestamp = 0 }

  -- `while padded_samples.len() < OPUS_FRAME_SIZE { padded_samples.push(0.0) }`, with the number of
  -- samples that are missing.
  unfoldable pub pad : ℕ → List Sample → List Sample
  pad zero samples = samples
  pad (suc missing) samples = pad missing (samples ++ (c.silence ∷ []))

  -- The counters go on only when the codec gave a frame.
  unfoldable pub encode_padded : List Sample → Encoder → Result VoiceData SdkError × Encoder
  encode_padded padded e =
      let given = c.encode_float padded e.encoder in
      elim given.0 [
        | none ↦ (err encoder_error, record e { encoder = given.1 })
        | some opus_frame ↦ (
          ok (record {
            sequence = e.sequence;
            timestamp = e.timestamp;
            user_id = 0;
            opus_frame = opus_frame;
          }),
          record {
            encoder = given.1;
            sequence = (e.sequence + 1) % 2 ^ 32;
            timestamp = (e.timestamp + opus_frame_size) % 2 ^ 32;
          },
        )
      ]

  unfoldable pub encode : List Sample → Encoder → Result VoiceData SdkError × Encoder
  encode samples e =
      if ltb opus_frame_size (length samples)
      then (err invalid_input, e)
      else encode_padded (pad (opus_frame_size - length samples) samples) e

  length-pad : (missing : ℕ) (xs : List Sample) → length (pad missing xs) ≡ length xs + missing
  unfolding pad
  length-pad zero xs = omega arith
  length-pad (suc missing) xs =
      omega (arith, length-pad missing (xs ++ (c.silence ∷ [])), length-append xs (c.silence ∷ []))

  -- After n encoded frames both counters have counted n frames, and wrapped around.
  pub record Counts (n : ℕ) (e : Encoder) : Type 0 where
    pub sequence : e.sequence ≡ n % 2 ^ 32
    pub timestamp : e.timestamp ≡ n * opus_frame_size % 2 ^ 32

  pub new-Counts : (s : c.State) → Counts 0 (new s)
  new-Counts s = record { sequence = refl; timestamp = refl }

  -- What a call of `encode` after n encoded frames gives.
  abbrev pub Encodes : ℕ → Result VoiceData SdkError → Encoder → Type 0
  Encodes n (err _) e = Counts n e
  Encodes n (ok v) e =
      (v.sequence ≡ n % 2 ^ 32)
      × (v.timestamp ≡ n * opus_frame_size % 2 ^ 32)
      × (v.user_id ≡ 0)
      × (length v.opus_frame ≤ max_opus_frame)
      × Counts (n + 1) e

  encode_padded-Encodes :
      (n : ℕ) (xs : List Sample) (e : Encoder)
      → Counts n e
      → Encodes n (encode_padded xs e).0 (encode_padded xs e).1
  unfolding encode_padded
  encode_padded-Encodes n xs e h = elim (Option-cases (c.encode_float xs e.encoder).0) [
    | inl none_given ↦
        rw (none_given, encode_padded, Encodes)
          (record { sequence = h.sequence; timestamp = h.timestamp })
    | inr (bytes, given) ↦
        rw (given, encode_padded, Encodes)
          (
            h.sequence,
            h.timestamp,
            refl,
            (c.encode_float_bytes xs e.encoder given).1,
            record { sequence = omega (arith, h.sequence); timestamp = omega (arith, h.timestamp) },
          )
  ]

  pub encode-Encodes :
      (n : ℕ) (xs : List Sample) (e : Encoder)
      → Counts n e
      → Encodes n (encode xs e).0 (encode xs e).1
  unfolding encode
  encode-Encodes n xs e h = elim (Bool-cases (ltb opus_frame_size (length xs))) [
    | inl long ↦ rw (long, encode, Encodes) h
    | inr fits ↦
        rw (fits, encode) (encode_padded-Encodes n (pad (opus_frame_size - length xs) xs) e h)
  ]
