-- ===== src/Sdk/Voice/Pipeline.antt =====
-- sdk/src/voice/input_pipeline.rs. The channel to the UDP task is the list of what was sent on it;
-- `is_open` says whether the channel still takes a datagram when so many have been sent.
pub mod Numbering
pub mod Resampling
pub mod Cuts
use voiceapp.Base.{
  ℕ, ◌<◌, Bool, if◌then◌else◌, Option, none, some, List, [], ◌∷◌, ◌++◌, length, ok, err,
}
use voiceapp.Protocol.Packet
use voiceapp.Protocol.Packet.{voice_data}
use voiceapp.Sdk.Voice.Codec.{Codec, Resampler, opus_frame_size}
use voiceapp.Sdk.Voice.Drain.{Turn, goes, stops, panics, Drained, drained, cut, drain}
use voiceapp.Sdk.Voice.Drain
use voiceapp.Sdk.Voice.Encoder
use voiceapp.Sdk.Voice.Encoder.{VoiceData, Encoder}

abbrev pub resampler_chunk_size : ℕ
resampler_chunk_size = 480

-- How a part of the task ends: it goes on, or the task returns, or it panics. `stuck` is no outcome
-- of the program: the fuel of a loop ran out.
pub data Flow (S : Type 0) : Type 0 where
  continues returns : S → Flow S
  panicked stuck : Flow S

abbrev pub flow : {A S T : Type 0} → (List A → S → T) → Drained A S → Flow T
flow f (drained rest s) = continues (f rest s)
flow f (cut rest s) = returns (f rest s)
flow f Drained.panicked = panicked
flow f Drained.stuck = stuck

abbrev pub and_then : {S : Type 0} → (S → Flow S) → Flow S → Flow S
and_then f (continues s) = f s
and_then f (returns s) = returns s
and_then f panicked = panicked
and_then f stuck = stuck

abbrev pub packet_of : VoiceData → Packet.Packet
packet_of v = voice_data v.user_id v.sequence v.timestamp v.opus_frame

module _ {Sample : Type 0} (c : Codec Sample) (r : Resampler Sample) (is_open : ℕ → Bool) where
  pub record Pipeline : Type 0 where
    pub encoder : Encoder c
    pub resampler : Option r.State
    pub resample_buffer : List Sample
    pub encode_buffer : List Sample
    pub udp_sent : List (List ℕ)

  -- The start of `pipeline_task`, with the resampler that `new` makes when the rates differ.
  abbrev pub start : c.State → Option r.State → Pipeline
  start encoder resampler = record {
    encoder = Encoder.new c encoder;
    resampler = resampler;
    resample_buffer = [];
    encode_buffer = [];
    udp_sent = [];
  }

  -- A chunk that cannot be resampled is left out.
  unfoldable pub resample_chunk : List Sample → r.State × List Sample → Turn (r.State × List Sample)
  resample_chunk input_chunk (resampler, encode_buffer) =
      let given = r.process input_chunk resampler in
      elim given.0 [
        | some resampled ↦ goes (given.1, encode_buffer ++ resampled)
        | none ↦ goes (given.1, encode_buffer)
      ]

  unfoldable pub resample : List Sample → Pipeline → Flow Pipeline
  resample frame p = elim p.resampler [
    | some resampler ↦
        flow
          (λ rest (s : r.State × List Sample). record p {
            resampler = some s.0;
            resample_buffer = rest;
            encode_buffer = s.1;
          })
          (drain resampler_chunk_size resample_chunk (p.resample_buffer ++ frame)
            (resampler, p.encode_buffer))
    | none ↦ continues (record p { encode_buffer = p.encode_buffer ++ frame })
  ]

  unfoldable pub encode_frame :
      List Sample → Encoder c × List (List ℕ) → Turn (Encoder c × List (List ℕ))
  encode_frame frame (encoder, sent) =
      let given = Encoder.encode c frame encoder in
      elim given.0 [
        | ok v ↦ elim (Packet.encode (packet_of v)) [
          | some bytes ↦
              if is_open (length sent)
              then goes (given.1, sent ++ (bytes ∷ []))
              else stops (given.1, sent)
          | none ↦ panics
        ]
        | err _ ↦ stops (given.1, sent)
      ]

  unfoldable pub encode_and_send : Pipeline → Flow Pipeline
  encode_and_send p =
      flow
        (λ rest (s : Encoder c × List (List ℕ)). record p {
          encoder = s.0;
          encode_buffer = rest;
          udp_sent = s.1;
        })
        (drain opus_frame_size encode_frame p.encode_buffer (p.encoder, p.udp_sent))

  unfoldable pub turn : List Sample → Pipeline → Flow Pipeline
  turn frame p = and_then encode_and_send (resample frame p)

  -- `pipeline_task`, over the frames that come until the channel of the input is closed.
  unfoldable pub pipeline_task : List (List Sample) → Pipeline → Flow Pipeline
  pipeline_task [] p = continues p
  pipeline_task (frame ∷ frames) p = and_then (pipeline_task frames) (turn frame p)
