-- ===== src/Sdk/Voice/Output.antt =====
-- sdk/src/voice/io_manager.rs and decoder.rs: the decoders of the other users. The jitter buffer is
-- a third-party package and a parameter. A decoder is shared with the thread that plays it, so the
-- decoders have numbers, and the map of users holds those.
pub mod Separate
pub mod Requests
use voiceapp.Base.{
  ℕ, ◌+◌, ◌%◌, ◌^◌, ◌==◌, Bool, true, false, if◌then◌else◌, Option, none, some, List, [], ◌∷◌,
  Result, ok, err,
}
use voiceapp.Table.{Table}
use voiceapp.Protocol.Packet.{Packet, voice_data}
use voiceapp.Sdk.Error.{SdkError, decoder_error, lock_error}
use voiceapp.Sdk.Voice.Codec.{opus_sample_rate, opus_frame_length_ms}
use voiceapp.Sdk.Voice.Encoder.{VoiceData}

pub record RtpHeader : Type 0 where
  pub sequence_number : ℕ
  pub timestamp : ℕ
  pub ssrc : ℕ
  pub payload_type : ℕ
  pub marker : Bool

pub record AudioPacket : Type 0 where
  pub header : RtpHeader
  pub payload : List ℕ
  pub sample_rate : ℕ
  pub channels : ℕ
  pub duration_ms : ℕ

-- The jitter buffer for a sample rate of the output; `none` is its error.
pub record NetEq (Sample : Type 0) : Type 1 where
  pub State : Type 0
  pub create : ℕ → Option State
  pub insert_packet : AudioPacket → State → Option (Unit {0}) × State
  pub get_audio : State → Option (List Sample) × State

abbrev pub opus_channels : ℕ
opus_channels = 1

abbrev pub opus_decoder_packet_id : ℕ
opus_decoder_packet_id = 111

-- The sequence number is cut to 16 bits.
unfoldable pub create_neteq_packet : VoiceData → AudioPacket
create_neteq_packet v = record {
  header = record {
    sequence_number = v.sequence % 2 ^ 16;
    timestamp = v.timestamp;
    ssrc = 0;
    payload_type = opus_decoder_packet_id;
    marker = false;
  };
  payload = v.opus_frame;
  sample_rate = opus_sample_rate;
  channels = opus_channels;
  duration_ms = opus_frame_length_ms;
}

module _ {Sample : Type 0} (n : NetEq Sample) where
  -- A `Mutex`, which a panic of a thread that holds it poisons.
  pub record Decoder : Type 0 where
    pub poisoned : Bool
    pub neteq : n.State

  unfoldable pub consume_voice_data : VoiceData → Decoder → Result (Unit {0}) SdkError × Decoder
  consume_voice_data v d =
      let given = n.insert_packet (create_neteq_packet v) d.neteq in
      if d.poisoned
      then (err lock_error, d)
      else (elim given.0 [ some u ↦ ok u | none ↦ err decoder_error ], record d { neteq = given.1 })

  unfoldable pub get_decoded_audio : Decoder → Result (List Sample) SdkError × Decoder
  get_decoded_audio d =
      let given = n.get_audio d.neteq in
      if d.poisoned then (err lock_error, d) else (
        elim given.0 [ some samples ↦ ok samples | none ↦ err decoder_error ],
        record d { neteq = given.1 },
      )

  module _ (tu : Table (ℕ × ℕ)) (td : Table Decoder) where
    -- The sample rate and the decoder of each user; the decoders; and the next decoder's number.
    pub record Outputs : Type 0 where
      pub output_decoders : tu.Map
      pub decoders : td.Map
      pub next : ℕ

    abbrev pub no_outputs : Outputs
    no_outputs = record { output_decoders = tu.empty; decoders = td.empty; next = 0 }

    unfoldable pub create_output : ℕ → ℕ → Outputs → Result ℕ SdkError × Outputs
    create_output user_id rate s = elim (n.create rate) [
      | none ↦ (err decoder_error, s)
      | some neteq ↦ (
        ok s.next,
        record {
          output_decoders = tu.insert s.output_decoders user_id (rate, s.next);
          decoders = td.insert s.decoders s.next (record { poisoned = false; neteq = neteq });
          next = s.next + 1;
        },
      )
    ]

    unfoldable pub get_or_create_voice_output : ℕ → ℕ → Outputs → Result ℕ SdkError × Outputs
    get_or_create_voice_output user_id rate s = elim (tu.get s.output_decoders user_id) [
      | some (current, decoder) ↦
          if current == rate then (ok decoder, s) else create_output user_id rate s
      | none ↦ create_output user_id rate s
    ]

    unfoldable pub remove_voice_output_for : ℕ → Outputs → Outputs
    remove_voice_output_for user_id s = record s {
      output_decoders = tu.remove s.output_decoders user_id;
    }

    unfoldable pub remove_all_voice_outputs : Outputs → Outputs
    remove_all_voice_outputs s = record s { output_decoders = tu.empty }

    -- A change of one decoder.
    unfoldable pub update : ℕ → (Decoder → Decoder) → Outputs → Outputs
    update decoder f s = elim (td.get s.decoders decoder) [
      | none ↦ s
      | some d ↦ record s { decoders = td.insert s.decoders decoder (f d) }
    ]

    -- An error of the decoder is only logged.
    unfoldable pub process_packet : Packet → Outputs → Outputs
    process_packet (voice_data user_id sequence timestamp opus_frame) s =
        let v : VoiceData = record {
          sequence = sequence;
          timestamp = timestamp;
          user_id = user_id;
          opus_frame = opus_frame;
        } in
        elim (tu.get s.output_decoders user_id) [
          | some (rate, decoder) ↦ update decoder (λ d. (consume_voice_data v d).1) s
          | none ↦ s
        ]
    process_packet _ s = s

    unfoldable pub process_incoming_packets : List Packet → Outputs → Outputs
    process_incoming_packets [] s = s
    process_incoming_packets (p ∷ ps) s = process_incoming_packets ps (process_packet p s)
