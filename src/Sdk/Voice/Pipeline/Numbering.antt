-- ===== src/Sdk/Voice/Pipeline/Numbering.antt =====
-- The datagrams of the input pipeline.
use voiceapp.Base.{
  ℕ, suc, ◌+◌, ◌*◌, ◌%◌, ◌^◌, ◌≤◌, ◌<◌, ◌≡◌, ◌∙◌, subst, inl, inr, Bool, Bool-cases, Option, some,
  Option-cases, List, [], ◌∷◌, ◌++◌, length, length-append, Result-cases, ok, arith,
}
use voiceapp.Protocol.Bytes.{to_be_bytes, length-to_be_bytes}
use voiceapp.Protocol.Packet.{voice_data}
use voiceapp.Protocol.Layout.{payload, frame, max_payload}
use voiceapp.Protocol.Encoding.{encode-fits}
use voiceapp.Sdk.Voice.Codec.{Codec, Resampler, opus_frame_size, max_opus_frame}
use voiceapp.Sdk.Voice.Drain
use voiceapp.Sdk.Voice.Drain.{Drained, drained, cut, drain, Holds, Ends, drain-Ends}
use voiceapp.Sdk.Voice.Encoder
use voiceapp.Sdk.Voice.Encoder.{Encoder, VoiceData, Counts, Encodes, encode-Encodes}
use voiceapp.Sdk.Voice.Pipeline
use voiceapp.Sdk.Voice.Pipeline.{
  Pipeline, start, Flow, continues, returns, flow, and_then, resample_chunk, resample, packet_of,
  encode_frame, encode_and_send, turn, pipeline_task, resampler_chunk_size,
}

-- The n-th datagram holds a voice frame without a sender, with the n-th numbers, on 32 bits.
pub record IsVoice (n : ℕ) (bytes : List ℕ) : Type 0 where
  pub opus_frame : List ℕ
  pub bounded : length opus_frame ≤ max_opus_frame
  pub voice : bytes ≡ frame (voice_data 0 (n % 2 ^ 32) (n * opus_frame_size % 2 ^ 32) opus_frame)

-- The datagrams are numbered one after the other, from n on.
abbrev pub Numbered : ℕ → List (List ℕ) → Type 0
Numbered n [] = Unit {0}
Numbered n (bytes ∷ sent) = IsVoice n bytes × Numbered (suc n) sent

add_suc : (n m : ℕ) → n + suc m ≡ suc n + m
add_suc n m = omega arith

Numbered-append :
    (n : ℕ) (sent : List (List ℕ)) (bytes : List ℕ)
    → Numbered n sent
    → IsVoice (n + length sent) bytes
    → Numbered n (sent ++ (bytes ∷ []))
Numbered-append n [] bytes h v = (subst (λ k. IsVoice k bytes) (omega arith) v, tt)
Numbered-append n (b ∷ sent) bytes h v = (
  h.0,
  Numbered-append (suc n) sent bytes h.1 (subst (λ k. IsVoice k bytes) (add_suc n (length sent)) v),
)

voice_fits :
    (u s t : ℕ) (opus_frame : List ℕ)
    → length opus_frame ≤ max_opus_frame
    → length (payload (voice_data u s t opus_frame)) < max_payload
unfolding payload
voice_fits u s t opus_frame h = omega (
  arith,
  length-append (to_be_bytes 8 u) (to_be_bytes 4 s ++ (to_be_bytes 4 t ++ opus_frame)),
  length-append (to_be_bytes 4 s) (to_be_bytes 4 t ++ opus_frame),
  length-append (to_be_bytes 4 t) opus_frame,
  length-to_be_bytes 8 u,
  length-to_be_bytes 4 s,
  length-to_be_bytes 4 t,
)

voice_lem :
    {u s t s' t' : ℕ} (opus_frame : List ℕ)
    → u ≡ 0
    → s ≡ s'
    → t ≡ t'
    → frame (voice_data u s t opus_frame) ≡ frame (voice_data 0 s' t' opus_frame)
voice_lem opus_frame hu hs ht = cc

module _ {Sample : Type 0} (c : Codec Sample) (r : Resampler Sample) (is_open : ℕ → Bool) where
  -- Between two rounds, the encoder has counted the datagrams that were sent.
  abbrev Counted : Encoder c × List (List ℕ) → Type 0
  Counted (encoder, sent) = Counts c (length sent) encoder × Numbered 0 sent

  abbrev AllNumbered : Encoder c × List (List ℕ) → Type 0
  AllNumbered s = Numbered 0 s.1

  encode_frame-Holds :
      (xs : List Sample) (encoder : Encoder c) (sent : List (List ℕ))
      → Counted (encoder, sent)
      → Holds opus_frame_size
          (encode_frame c r is_open)
          Counted
          AllNumbered
          (encode_frame c r is_open xs (encoder, sent))
  unfolding encode_frame
  encode_frame-Holds xs encoder sent h =
      let out = encode-Encodes c (length sent) xs encoder h.0 in
      elim (Result-cases (Encoder.encode c xs encoder).0) [
        | inr (e, failure) ↦ rw (failure, encode_frame, Holds) h.1
        | inl (v, given) ↦
            let out' : Encodes c (length sent) (ok v) (Encoder.encode c xs encoder).1 =
              rw given at out in
            rw (given, encode_frame, Holds)
              (rw
                (encode-fits (packet_of v)
                  (voice_fits v.user_id v.sequence v.timestamp v.opus_frame out'.3))
                (elim (Bool-cases (is_open (length sent))) [
                  | inl takes ↦ rw takes (
                    subst (λ n. Counts c n (Encoder.encode c xs encoder).1)
                        (counted (frame (packet_of v))) out'.4,
                    Numbered-append 0 sent (frame (packet_of v)) h.1 (record {
                      opus_frame = v.opus_frame;
                      bounded = out'.3;
                      voice =
                          voice_lem v.opus_frame out'.2 (out'.0 ∙ omega arith)
                            (out'.1 ∙ omega arith);
                    }),
                  )
                  | inr full ↦ rw full h.1
                ]))
      ]
    where
      counted : (bytes : List ℕ) → length sent + 1 ≡ length (sent ++ (bytes ∷ []))
      counted bytes = omega (arith, length-append sent (bytes ∷ []))

  -- A pipeline that waits for a frame: its encoder has counted the datagrams, which are numbered one
  -- after the other, and its buffers hold less than a chunk.
  pub record IsReady (p : Pipeline c r is_open) : Type 0 where
    pub counts : Counts c (length p.udp_sent) p.encoder
    pub numbered : Numbered 0 p.udp_sent
    pub encode_short : length p.encode_buffer < opus_frame_size
    pub resample_short : length p.resample_buffer < resampler_chunk_size

  -- The pipeline is ready again, or it has ended; it does not panic, and its loops end.
  abbrev pub Flows : Flow (Pipeline c r is_open) → Type 0
  Flows (continues p) = IsReady p
  Flows (returns p) = Numbered 0 p.udp_sent
  Flows Pipeline.panicked = ⊥
  Flows Pipeline.stuck = ⊥

  pub start-IsReady : (s : c.State) (o : Option r.State) → IsReady (start c r is_open s o)
  start-IsReady s o = record {
    counts = Encoder.new-Counts c s;
    numbered = tt;
    encode_short = omega arith;
    resample_short = omega arith;
  }

  encode_and_send-Flows :
      (p : Pipeline c r is_open)
      → Counted (p.encoder, p.udp_sent)
      → length p.resample_buffer < resampler_chunk_size
      → Flows (encode_and_send c r is_open p)
  unfolding encode_and_send
  encode_and_send-Flows p h short =
      settle
        (drain opus_frame_size (encode_frame c r is_open) p.encode_buffer (p.encoder, p.udp_sent))
        (drain-Ends opus_frame_size (encode_frame c r is_open) Counted AllNumbered (omega arith)
          (λ xs s. encode_frame-Holds xs s.0 s.1) p.encode_buffer (p.encoder, p.udp_sent) h)
    where
      settle :
          (d : Drained Sample (Encoder c × List (List ℕ)))
          → Ends opus_frame_size (encode_frame c r is_open) Counted AllNumbered d
          → Flows (
              flow
                (λ rest (s : Encoder c × List (List ℕ)). record p {
                  encoder = s.0;
                  encode_buffer = rest;
                  udp_sent = s.1;
                })
                d)
      settle (drained rest s) e = record {
        counts = e.0.0;
        numbered = e.0.1;
        encode_short = e.1;
        resample_short = short;
      }
      settle (cut rest s) e = e
      settle Drain.panicked e = e
      settle Drain.stuck e = e

  resample_chunk-Holds :
      (xs : List Sample) (s : r.State × List Sample)
      → Holds resampler_chunk_size
          (resample_chunk c r is_open)
          (λ _. Unit {0})
          (λ _. ⊥)
          (resample_chunk c r is_open xs s)
  unfolding resample_chunk
  resample_chunk-Holds xs s = elim (Option-cases (r.process xs s.0).0) [
    | inl refused ↦ rw (refused, resample_chunk, Holds) tt
    | inr (ys, given) ↦ rw (given, resample_chunk, Holds) tt
  ]

  pub turn-Flows :
      (xs : List Sample) (p : Pipeline c r is_open) → IsReady p → Flows (turn c r is_open xs p)
  unfolding turn resample
  turn-Flows xs p h = elim (Option-cases p.resampler) [
    | inl same_rate ↦
        rw (same_rate, turn, resample)
          (encode_and_send-Flows _ (h.counts, h.numbered) h.resample_short)
    | inr (rs, e) ↦
        rw (e, turn, resample)
          (settle _ (
            drain-Ends resampler_chunk_size (resample_chunk c r is_open) (λ _. Unit {0}) (λ _. ⊥)
              (omega arith) (λ xs s _. resample_chunk-Holds xs s) (p.resample_buffer ++ xs)
              (rs, p.encode_buffer) tt))
  ]
    where
      settle :
          (d : Drained Sample (r.State × List Sample))
          → Ends resampler_chunk_size (resample_chunk c r is_open) (λ _. Unit {0}) (λ _. ⊥) d
          → Flows (
              and_then (encode_and_send c r is_open) (
                flow
                  (λ rest (s : r.State × List Sample). record p {
                    resampler = some s.0;
                    resample_buffer = rest;
                    encode_buffer = s.1;
                  })
                  d))
      settle (drained rest s) e = encode_and_send-Flows _ (h.counts, h.numbered) e.1
      settle (cut rest s) e = absurd e
      settle Drain.panicked e = e
      settle Drain.stuck e = e

  and_then-Flows :
      (k : Pipeline c r is_open → Flow (Pipeline c r is_open))
      → ((p : Pipeline c r is_open) → IsReady p → Flows (k p))
      → (f : Flow (Pipeline c r is_open)) → Flows f
      → Flows (and_then k f)
  and_then-Flows k h (continues p) e = h p e
  and_then-Flows k h (returns p) e = e
  and_then-Flows k h Pipeline.panicked e = e
  and_then-Flows k h Pipeline.stuck e = e

  -- From a state that is ready, as the one at the start is, the task of the input pipeline never
  -- panics, and its loops end. The datagrams that it has sent, at its end or while it waits for more
  -- sound, are numbered one after the other: the n-th holds the sequence number n and the
  -- time stamp 960 n, both on 32 bits, and at most 4000 bytes of sound. While it waits, its buffers
  -- hold less than a chunk.
  pub pipeline_task-Flows :
      (frames : List (List Sample)) (p : Pipeline c r is_open)
      → IsReady p
      → Flows (pipeline_task c r is_open frames p)
  unfolding pipeline_task
  pipeline_task-Flows [] p h = h
  pipeline_task-Flows (f ∷ fs) p h =
      and_then-Flows (pipeline_task c r is_open fs) (pipeline_task-Flows fs) (turn c r is_open f p)
        (turn-Flows f p h)
