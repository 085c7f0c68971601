-- ===== src/Sdk/Voice/Pipeline/Resampling.antt =====
-- The sound that is still to be resampled, and what the encoder has still to take.
use voiceapp.Base.{
  ℕ, ◌≤◌, ◌≡◌, refl, sym, ap, ◌∙◌, inl, inr, Bool, Option-cases, List, [], ◌++◌, append_assoc,
  append-nil, length, take, drop, arith,
}
use voiceapp.Sdk.Voice.Codec.{Codec, Resampler}
use voiceapp.Sdk.Voice.Drain
use voiceapp.Sdk.Voice.Drain.{
  Drained, drained, cut, drain, drain_ind, drain-few, drain_goes, drain-append, then_drain, goes,
}
use voiceapp.Sdk.Voice.Pipeline.{resample_chunk, resampler_chunk_size}

module _ {Sample : Type 0} (c : Codec Sample) (r : Resampler Sample) (is_open : ℕ → Bool) where
  abbrev pub resampling :
      List Sample → r.State × List Sample → Drained Sample (r.State × List Sample)
  resampling = drain resampler_chunk_size (resample_chunk c r is_open)

  record Chunk (xs : List Sample) (state : r.State) : Type 0 where
    state' : r.State
    out : List Sample
    goes_on : (e : List Sample) → resample_chunk c r is_open xs (state, e) ≡ goes (state', e ++ out)

  chunk : (xs : List Sample) (state : r.State) → Chunk xs state
  unfolding resample_chunk
  chunk xs state = elim (Option-cases (r.process xs state).0) [
    | inl refused ↦ record {
      state' = (r.process xs state).1;
      out = [];
      goes_on = λ e. rw (refused, resample_chunk) (rw append-nil refl);
    }
    | inr (ys, given) ↦ record {
      state' = (r.process xs state).1;
      out = ys;
      goes_on = λ e. rw (given, resample_chunk) refl;
    }
  ]

  -- What resampling gives does not depend on what is in the buffer for the encoder.
  pub record Resampled (buf : List Sample) (s : r.State × List Sample)
      (d : Drained Sample (r.State × List Sample)) : Type 0 where
    pub rest : List Sample
    pub state : r.State
    pub out : List Sample
    pub here : d ≡ drained rest (state, s.1 ++ out)
    pub there : (e : List Sample) → resampling buf (s.0, e) ≡ drained rest (state, e ++ out)

  goes_inj : {S : Type 0} {s t : S} → Path (Drain.Turn S) (goes s) (goes t) → s ≡ t
  goes_inj e = cc

  chunk_then_rest :
      (buf : List Sample) (s s' : r.State × List Sample)
      (d : Drained Sample (r.State × List Sample))
      → resampler_chunk_size ≤ length buf
      → resample_chunk c r is_open (take resampler_chunk_size buf) s ≡ goes s'
      → Resampled (drop resampler_chunk_size buf) s' d
      → Resampled buf s d
  chunk_then_rest buf s s' d le e ih =
      let k = chunk (take resampler_chunk_size buf) s.0 in
      let next : Path (r.State × List Sample) s' (k.state', s.1 ++ k.out) =
        goes_inj (sym e ∙ k.goes_on s.1) in
      record {
        rest = ih.rest;
        state = ih.state;
        out = k.out ++ ih.out;
        here =
            ih.here
            ∙ ap (λ (x : r.State × List Sample). drained ih.rest (ih.state, x.1 ++ ih.out)) next
            ∙ ap (λ x. drained ih.rest (ih.state, x)) (append_assoc s.1 k.out ih.out);
        there = λ e'.
            drain_goes resampler_chunk_size (resample_chunk c r is_open) buf (s.0, e')
              (k.state', e' ++ k.out) (omega arith) le (k.goes_on e')
            ∙ ap
                (λ (x : r.State × List Sample).
                  resampling (drop resampler_chunk_size buf) (x.0, e' ++ k.out))
                (sym next)
            ∙ ih.there (e' ++ k.out)
            ∙ ap (λ x. drained ih.rest (ih.state, x)) (append_assoc e' k.out ih.out);
      }

  pub resampled :
      (buf : List Sample) (s : r.State × List Sample) → Resampled buf s (resampling buf s)
  resampled =
      drain_ind resampler_chunk_size (resample_chunk c r is_open) Resampled (omega arith)
        (λ buf s h. record {
          rest = buf;
          state = s.0;
          out = [];
          here = rw append-nil refl;
          there = λ e.
              drain-few resampler_chunk_size (resample_chunk c r is_open) buf (s.0, e) h
              ∙ rw append-nil refl;
        })
        chunk_then_rest
        (λ buf s s' le e.
          absurd (no_stop (sym ((chunk (take resampler_chunk_size buf) s.0).goes_on s.1) ∙ e)))
        (λ buf s le e.
          absurd (no_panic (sym ((chunk (take resampler_chunk_size buf) s.0).goes_on s.1) ∙ e)))
    where
      no_stop : {S : Type 0} {s t : S} → Path (Drain.Turn S) (goes s) (Drain.stops t) → ⊥
      no_stop e = absurd (cc)

      no_panic : {S : Type 0} {s : S} → Path (Drain.Turn S) (goes s) Drain.panics → ⊥
      no_panic e = absurd (cc)
