-- ===== src/Desktop/Samples/Fill.antt =====
-- What a buffer of samples is filled with.
use voiceapp.Base.{
  ℕ, zero, suc, ◌+◌, ◌-◌, ◌≤◌, ◌<◌, ◌≡◌, ◌≢◌, refl, sym, ap, ◌∙◌, ◌⊎◌, inl, inr, ◌==◌, ==_iff, min,
  false, Bool-cases, if◌then◌else◌, none, some, Option-cases, List, [], ◌∷◌, ◌++◌, append-nil,
  append_assoc, length, length-append, take, drop, length-take, take-append-drop, arith,
}
use voiceapp.Desktop.Samples.{AudioSource, Filled, filled, stuck, silent, fill_loop, fill_output}

module _ {Sample : Type 0} (source : AudioSource Sample) where
  -- The samples that calls of the source give, one call after the other; the last one may fail.
  pub data Plays : source.State → List Sample → source.State → Type 0 where
    stops : {s : source.State} → Plays s [] s
    fails : {s : source.State} → (source.get_audio s).0 ≡ none → Plays s [] (source.get_audio s).1
    gives :
        {s s' : source.State} {frame rest : List Sample}
        → (source.get_audio s).0 ≡ some frame
        → Plays (source.get_audio s).1 rest s'
        → Plays s (frame ++ rest) s'

  -- Behind what is written, samples of the source without a gap, and then silence if the source has
  -- no more; what is left over is what follows.
  pub record Continues (missing : ℕ) (written leftover : List Sample) (s : source.State)
      (written' leftover' : List Sample) (s' : source.State) : Type 0 where
    pub played : List Sample
    pub silence : ℕ
    pub stream : List Sample
    pub whole : length written' ≡ length written + missing
    pub content : written' ≡ (written ++ played) ++ silent source silence
    pub plays : Plays s stream s'
    pub gapless : played ++ leftover' ≡ leftover ++ stream
    pub underrun : (silence ≡ 0) ⊎ (leftover' ≡ [])

  abbrev pub Fills : ℕ → List Sample → List Sample → source.State → Filled source → Type 0
  Fills missing written leftover s (filled w l s') = Continues missing written leftover s w l s'
  Fills missing written leftover s stuck = ⊥

  length-silent : (k : ℕ) → length (silent source k) ≡ k
  unfolding silent
  length-silent zero = refl
  length-silent (suc k) = ap suc (length-silent k)

  empty_of_length : (xs : List Sample) → length xs ≡ 0 → xs ≡ []
  empty_of_length [] h = refl
  empty_of_length (x ∷ xs) h = absurd (omega (arith, h))

  -- The rest is silence.
  silence_lem :
      (missing : ℕ) (written leftover frame stream : List Sample) (s s' : source.State)
      → Plays s stream s'
      → frame ≡ []
      → frame ≡ leftover ++ stream
      → Continues missing written leftover s (written ++ silent source missing) frame s'
  silence_lem missing written leftover frame stream s s' plays blank same = record {
    played = [];
    silence = missing;
    stream = stream;
    whole = omega (arith, length-append written (silent source missing), length-silent missing);
    content = ap (λ w. w ++ silent source missing) (sym (append-nil written));
    plays = plays;
    gapless = same;
    underrun = inr blank;
  }

  -- A part of the frame is written, and the loop goes on.
  copied :
      (k missing : ℕ) (written leftover frame stream : List Sample) (s s' : source.State)
      (w l : List Sample) (s'' : source.State)
      → k ≤ length frame
      → k ≤ missing
      → ((rest : List Sample) → Plays s' rest s'' → Plays s (stream ++ rest) s'')
      → frame ≡ leftover ++ stream
      → Continues (missing - k) (written ++ take k frame) (drop k frame) s' w l s''
      → Continues missing written leftover s w l s''
  copied k missing written leftover frame stream s s' w l s'' hk hm on same h = record {
    played = take k frame ++ h.played;
    silence = h.silence;
    stream = stream ++ h.stream;
    whole = omega (arith, h.whole, length-append written (take k frame), length-take k frame hk);
    content =
        h.content
        ∙ ap (λ x. x ++ silent source h.silence) (append_assoc written (take k frame) h.played);
    plays = on h.stream h.plays;
    gapless =
        append_assoc (take k frame) h.played l
        ∙ ap (λ x. take k frame ++ x) h.gapless
        ∙ sym (append_assoc (take k frame) (drop k frame) h.stream)
        ∙ ap (λ x. x ++ h.stream) (take-append-drop k frame ∙ same)
        ∙ append_assoc leftover stream h.stream;
    underrun = h.underrun;
  }

  copied_of :
      (k missing : ℕ) (written leftover frame stream : List Sample) (s s' : source.State)
      (d : Filled source)
      → k ≤ length frame
      → k ≤ missing
      → ((s'' : source.State) (rest : List Sample)
          → Plays s' rest s''
          → Plays s (stream ++ rest) s'')
      → frame ≡ leftover ++ stream
      → Fills (missing - k) (written ++ take k frame) (drop k frame) s' d
      → Fills missing written leftover s d
  copied_of k missing written leftover frame stream s s' (filled w l s'') hk hm on same h =
      copied k missing written leftover frame stream s s' w l s'' hk hm (on s'') same h
  copied_of k missing written leftover frame stream s s' stuck hk hm on same h = h

  no_silence : (written : List Sample) → written ≡ (written ++ []) ++ silent source 0
  unfolding silent
  no_silence written = sym (append-nil (written ++ []) ∙ append-nil written)

  ==_false : {a b : ℕ} → (a == b) ≡ false → a ≢ b
  ==_false h e = ground (arith, h, e)

  copy-Fills :
      (fuel more : ℕ) (written leftover : List Sample) (s : source.State)
      → suc more < suc fuel
      → ((missing' : ℕ) (written' leftover' : List Sample) (t : source.State)
          → missing' < fuel
          → Fills missing' written' leftover' t
              (fill_loop source fuel missing' written' leftover' t))
      → (frame stream : List Sample) (s' : source.State)
      → ((s'' : source.State) (rest : List Sample)
          → Plays s' rest s''
          → Plays s (stream ++ rest) s'')
      → frame ≡ leftover ++ stream
      → Fills (suc more) written leftover s (
          let n = min (length frame) (suc more) in
          if n == 0
          then filled (written ++ silent source (suc more)) frame s'
          else fill_loop source fuel (suc more - n) (written ++ take n frame) (drop n frame) s')
  copy-Fills fuel more written leftover s h ih frame stream s' on same =
      elim (Bool-cases (min (length frame) (suc more) == 0)) [
        | inl nothing ↦
            let blank =
              empty_of_length frame
                (omega (arith, (==_iff (min (length frame) (suc more)) 0).0 nothing)) in
            rw nothing (
              silence_lem (suc more) written leftover frame (stream ++ []) s s' (on s' [] stops)
                blank (same ∙ ap (λ x. leftover ++ x) (sym (append-nil stream))))
        | inr something ↦ rw something (
            copied_of (min (length frame) (suc more)) (suc more) written leftover frame stream s s'
              _ (omega arith) (omega arith) on same
              (ih _ _ _ s' (omega (arith, h, ==_false something))))
      ]

  fill_loop-Fills :
      (fuel missing : ℕ) (written leftover : List Sample) (s : source.State)
      → missing < fuel
      → Fills missing written leftover s (fill_loop source fuel missing written leftover s)
  unfolding fill_loop
  fill_loop-Fills zero missing written leftover s h = elim h [ ]
  fill_loop-Fills (suc fuel) zero written leftover s h = record {
    played = [];
    silence = 0;
    stream = [];
    whole = omega arith;
    content = no_silence written;
    plays = stops;
    gapless = sym (append-nil leftover);
    underrun = inl refl;
  }
  fill_loop-Fills (suc fuel) (suc more) written leftover s h =
      elim (Bool-cases (length leftover == 0)) [
        | inr some_left ↦
            rw (some_left, fill_loop)
              (copy-Fills fuel more written leftover s h (fill_loop-Fills fuel) leftover [] s
                (λ s'' rest p. p) (sym (append-nil leftover)))
        | inl none_left ↦
            let blank = empty_of_length leftover ((==_iff (length leftover) 0).0 none_left) in
            elim (Option-cases (source.get_audio s).0) [
              | inr (frame, e) ↦
                  rw (none_left, fill_loop)
                    (rw e (
                      copy-Fills fuel more written leftover s h (fill_loop-Fills fuel) frame frame
                        (source.get_audio s).1 (λ s'' rest p. gives e p)
                        (ap (λ x. x ++ frame) (sym blank))))
              | inl failed ↦
                  rw (none_left, fill_loop)
                    (rw failed (
                      silence_lem (suc more) written leftover leftover [] s (source.get_audio s).1
                        (fails failed) blank (sym (append-nil leftover))))
            ]
      ]

  -- Filling a buffer always ends. The whole buffer is then written: with what was left over and what the source
  -- gives, in order and without a gap, and behind it with silence, which only comes when nothing is left
  -- over; what is left over is what follows in the source.
  pub fill_output-Fills :
      (size : ℕ) (leftover : List Sample) (s : source.State)
      → Fills size [] leftover s (fill_output source size leftover s)
  unfolding fill_output
  fill_output-Fills size leftover s = fill_loop-Fills (suc size) size [] leftover s (omega arith)
