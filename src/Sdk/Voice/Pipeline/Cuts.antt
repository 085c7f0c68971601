-- ===== src/Sdk/Voice/Pipeline/Cuts.antt =====
-- The input pipeline over sound that is cut into frames anywhere.
use voiceapp.Base.{
  ℕ, ◌≡◌, refl, sym, ap, ◌∙◌, inl, inr, Bool, none, some, Option-cases, List, [], ◌∷◌, ◌++◌,
  append_assoc, append-nil, arith,
}
use voiceapp.Sdk.Voice.Codec.{Codec, Resampler, opus_frame_size}
use voiceapp.Sdk.Voice.Drain
use voiceapp.Sdk.Voice.Drain.{
  Drained, drained, cut, drain, drain_ind, drain-few, drain_goes, drain-append, then_drain, goes,
}
use voiceapp.Sdk.Voice.Encoder.{Encoder}
use voiceapp.Sdk.Voice.Pipeline
use voiceapp.Sdk.Voice.Pipeline.{
  Pipeline, Flow, continues, returns, flow, and_then, resample_chunk, resample, encode_frame,
  encode_and_send, turn, pipeline_task, resampler_chunk_size,
}
use voiceapp.Sdk.Voice.Pipeline.Resampling.{resampling, resampled}
use voiceapp.Sdk.Voice.Pipeline.Numbering.{IsReady, Flows, turn-Flows}

abbrev pub concat : {A : Type 0} → List (List A) → List A
concat [] = []
concat (xs ∷ xss) = xs ++ concat xss

module _ {Sample : Type 0} (c : Codec Sample) (r : Resampler Sample) (is_open : ℕ → Bool) where
  -- What was sent, at the end or while the task waits.
  abbrev pub datagrams : Flow (Pipeline c r is_open) → List (List ℕ)
  datagrams (continues p) = p.udp_sent
  datagrams (returns p) = p.udp_sent
  datagrams Pipeline.panicked = []
  datagrams Pipeline.stuck = []

  sending : List Sample → Encoder c × List (List ℕ) → Drained Sample (Encoder c × List (List ℕ))
  sending = drain opus_frame_size (encode_frame c r is_open)

  sent_by : Drained Sample (Encoder c × List (List ℕ)) → List (List ℕ)
  sent_by (drained rest s) = s.1
  sent_by (cut rest s) = s.1
  sent_by Drain.panicked = []
  sent_by Drain.stuck = []

  datagrams-encode_and_send :
      (p : Pipeline c r is_open)
      → datagrams (encode_and_send c r is_open p)
        ≡ sent_by (sending p.encode_buffer (p.encoder, p.udp_sent))
  unfolding encode_and_send sending sent_by
  datagrams-encode_and_send p = settle (sending p.encode_buffer (p.encoder, p.udp_sent))
    where
      settle :
          (d : Drained Sample (Encoder c × List (List ℕ)))
          → datagrams (
              flow
                (λ rest (s : Encoder c × List (List ℕ)). record p {
                  encoder = s.0;
                  encode_buffer = rest;
                  udp_sent = s.1;
                })
                d)
            ≡ sent_by d
      settle (drained rest s) = refl
      settle (cut rest s) = refl
      settle Drain.panicked = refl
      settle Drain.stuck = refl

  turn_resampled :
      (p : Pipeline c r is_open) (rs st : r.State) (xs rest out : List Sample)
      → p.resampler ≡ some rs
      → resampling c r is_open (p.resample_buffer ++ xs) (rs, p.encode_buffer)
        ≡ drained rest (st, out)
      → turn c r is_open xs p
        ≡ encode_and_send c r is_open
            (record p { resampler = some st; resample_buffer = rest; encode_buffer = out })
  unfolding turn resample
  turn_resampled p rs st xs rest out e given = rw (e, turn, resample) (rw given refl)

  turn_plain :
      (p : Pipeline c r is_open) (xs : List Sample)
      → p.resampler ≡ none
      → turn c r is_open xs p
        ≡ encode_and_send c r is_open (record p { encode_buffer = p.encode_buffer ++ xs })
  unfolding turn resample
  turn_plain p xs e =
      rw (e, turn, resample)
        (ap
          (λ o.
            encode_and_send c r is_open
              (record p { resampler = o; encode_buffer = p.encode_buffer ++ xs }))
          e)

  -- If the encoder is to get `more` behind what it has, it does not matter when.
  encode_then :
      (p : Pipeline c r is_open) (more : List Sample)
      (k : Pipeline c r is_open → Flow (Pipeline c r is_open))
      → ((left : List Sample) (s : Encoder c × List (List ℕ))
          → datagrams (k (record p { encoder = s.0; encode_buffer = left; udp_sent = s.1 }))
            ≡ sent_by (sending (left ++ more) s))
      → datagrams (and_then k (encode_and_send c r is_open p))
        ≡ sent_by (sending (p.encode_buffer ++ more) (p.encoder, p.udp_sent))
  unfolding encode_and_send sending sent_by
  encode_then p more k h =
      settle (sending p.encode_buffer (p.encoder, p.udp_sent))
      ∙ ap sent_by (
          sym (
            drain-append opus_frame_size (encode_frame c r is_open) (omega arith) more
              p.encode_buffer (p.encoder, p.udp_sent)))
    where
      settle :
          (d : Drained Sample (Encoder c × List (List ℕ)))
          → datagrams (
              and_then k (
                flow
                  (λ rest (s : Encoder c × List (List ℕ)). record p {
                    encoder = s.0;
                    encode_buffer = rest;
                    udp_sent = s.1;
                  })
                  d))
            ≡ sent_by (then_drain opus_frame_size (encode_frame c r is_open) more d)
      settle (drained rest s) = h rest s
      settle (cut rest s) = refl
      settle Drain.panicked = refl
      settle Drain.stuck = refl

  -- Two frames in one, and one after the other.
  turn-append :
      (xs ys : List Sample) (p : Pipeline c r is_open)
      → datagrams (turn c r is_open (xs ++ ys) p)
        ≡ datagrams (and_then (turn c r is_open ys) (turn c r is_open xs p))
  turn-append xs ys p = elim (Option-cases p.resampler) [
    | inl same_rate ↦
        ap datagrams (turn_plain p (xs ++ ys) same_rate)
        ∙ datagrams-encode_and_send _
        ∙ ap (λ b. sent_by (sending b (p.encoder, p.udp_sent)))
            (sym (append_assoc p.encode_buffer xs ys))
        ∙ sym (
            encode_then (record p { encode_buffer = p.encode_buffer ++ xs }) ys
              (turn c r is_open ys)
              (λ left s. ap datagrams (turn_plain _ ys same_rate) ∙ datagrams-encode_and_send _))
        ∙ ap (λ f. datagrams (and_then (turn c r is_open ys) f)) (sym (turn_plain p xs same_rate))
    | inr (rs, e) ↦
        let a = resampled c r is_open (p.resample_buffer ++ xs) (rs, p.encode_buffer) in
        let b = resampled c r is_open (a.rest ++ ys) (a.state, []) in
        let both : resampling c r is_open (p.resample_buffer ++ (xs ++ ys)) (rs, p.encode_buffer)
            ≡ drained b.rest (b.state, (p.encode_buffer ++ a.out) ++ b.out) =
          ap (λ buf. resampling c r is_open buf (rs, p.encode_buffer))
            (sym (append_assoc p.resample_buffer xs ys))
          ∙ drain-append resampler_chunk_size (resample_chunk c r is_open) (omega arith) ys
              (p.resample_buffer ++ xs) (rs, p.encode_buffer)
          ∙ ap (then_drain resampler_chunk_size (resample_chunk c r is_open) ys) a.here
          ∙ b.there (p.encode_buffer ++ a.out) in
        ap datagrams (turn_resampled p rs b.state (xs ++ ys) b.rest _ e both)
        ∙ datagrams-encode_and_send _
        ∙ sym (
            encode_then
              (record p {
                resampler = some a.state;
                resample_buffer = a.rest;
                encode_buffer = p.encode_buffer ++ a.out;
              })
              b.out (turn c r is_open ys)
              (λ left s.
                ap datagrams (turn_resampled _ a.state b.state ys b.rest _ refl (b.there left))
                ∙ datagrams-encode_and_send _))
        ∙ ap (λ f. datagrams (and_then (turn c r is_open ys) f))
            (sym (turn_resampled p rs a.state xs a.rest _ e a.here))
  ]

  turn-nil :
      (p : Pipeline c r is_open)
      → IsReady c r is_open p
      → datagrams (turn c r is_open [] p) ≡ p.udp_sent
  unfolding sending sent_by
  turn-nil p h = elim (Option-cases p.resampler) [
    | inl same_rate ↦
        ap datagrams (turn_plain p [] same_rate)
        ∙ datagrams-encode_and_send _
        ∙ ap (λ b. sent_by (sending b (p.encoder, p.udp_sent))) (append-nil p.encode_buffer)
        ∙ ap sent_by
            (drain-few opus_frame_size (encode_frame c r is_open) p.encode_buffer _ h.encode_short)
    | inr (rs, e) ↦
        ap datagrams (
          turn_resampled p rs rs [] p.resample_buffer p.encode_buffer e (
            rw append-nil (
              drain-few resampler_chunk_size (resample_chunk c r is_open) p.resample_buffer _
                h.resample_short)))
        ∙ datagrams-encode_and_send _
        ∙ ap sent_by
            (drain-few opus_frame_size (encode_frame c r is_open) p.encode_buffer _ h.encode_short)
  ]

  and_then_cong :
      (k l : Pipeline c r is_open → Flow (Pipeline c r is_open))
      → ((p : Pipeline c r is_open) → IsReady c r is_open p → datagrams (k p) ≡ datagrams (l p))
      → (f : Flow (Pipeline c r is_open)) → Flows c r is_open f
      → datagrams (and_then k f) ≡ datagrams (and_then l f)
  and_then_cong k l h (continues p) e = h p e
  and_then_cong k l h (returns p) e = refl
  and_then_cong k l h Pipeline.panicked e = refl
  and_then_cong k l h Pipeline.stuck e = refl

  task_of_one :
      (xs : List Sample) (p : Pipeline c r is_open)
      → datagrams (pipeline_task c r is_open (xs ∷ []) p) ≡ datagrams (turn c r is_open xs p)
  unfolding pipeline_task
  task_of_one xs p = settle (turn c r is_open xs p)
    where
      settle :
          (f : Flow (Pipeline c r is_open))
          → datagrams (and_then (pipeline_task c r is_open []) f) ≡ datagrams f
      settle (continues q) = refl
      settle (returns q) = refl
      settle Pipeline.panicked = refl
      settle Pipeline.stuck = refl

  -- From a state that is ready, the datagrams that the task sends depend only on the sound,
  -- and not on how the microphone has cut it into frames: they are those of one frame with all of it.
  pub pipeline_task-concat :
      (frames : List (List Sample)) (p : Pipeline c r is_open)
      → IsReady c r is_open p
      → datagrams (pipeline_task c r is_open frames p)
        ≡ datagrams (pipeline_task c r is_open (concat frames ∷ []) p)
  unfolding pipeline_task
  pipeline_task-concat [] p h = sym (task_of_one [] p ∙ turn-nil p h)
  pipeline_task-concat (f ∷ fs) p h =
      and_then_cong (pipeline_task c r is_open fs) (turn c r is_open (concat fs))
        (λ q ready. pipeline_task-concat fs q ready ∙ task_of_one (concat fs) q)
        (turn c r is_open f p) (turn-Flows c r is_open f p h)
      ∙ sym (task_of_one (f ++ concat fs) p ∙ turn-append f (concat fs) p)
