-- ===== src/Desktop/Notification/Plays.antt =====
-- What a notification sounds like.
use voiceapp.Base.{
  ℕ, zero, suc, ◌+◌, ◌-◌, ◌≤◌, ◌<◌, ◌≡◌, refl, sym, ap, subst, ◌∙◌, ◌⊎◌, inl, inr, ltb, leb, leb→le,
  ltb→lt, ltb→le, min, Bool-cases, Option, none, some, List, [], ◌∷◌, ◌++◌, append_assoc,
  append-nil, length, length-append, length-drop, length-take, take, drop, drop-add,
  take-append-drop, arith,
}
use voiceapp.Desktop.Message.{String}
use voiceapp.Desktop.Notification.{State, play, silent, next_chunk, get_audio, calls}

module _ {Sample : Type 0} (silence : Sample) (sounds : String → Option (List Sample))
    (adjust_volume : List Sample → ℕ → List Sample) (chunk_size : ℕ) where
  -- What is still to be played.
  abbrev pub remaining : State silence sounds adjust_volume chunk_size → List Sample
  remaining none = []
  remaining (some c) = drop c.position c.samples

  nothing_left : (xs : List Sample) → length xs ≡ 0 → xs ≡ []
  nothing_left [] h = refl
  nothing_left (x ∷ xs) h = absurd (omega (arith, h))

  silent-append :
      (a b : ℕ)
      → silent silence sounds adjust_volume chunk_size a
          ++ silent silence sounds adjust_volume chunk_size b
        ≡ silent silence sounds adjust_volume chunk_size (a + b)
  unfolding silent
  silent-append zero b =
      let e : b ≡ zero + b = omega arith in ap (silent silence sounds adjust_volume chunk_size) e
  silent-append (suc a) b =
      let e : suc (a + b) ≡ suc a + b = omega arith in
      ap (◌∷◌ silence) (silent-append a b) ∙ ap (silent silence sounds adjust_volume chunk_size) e

  -- A call gives silence when nothing is left, and else the next samples.
  pub record Given (s : State silence sounds adjust_volume chunk_size)
      (r : List Sample × State silence sounds adjust_volume chunk_size) : Type 0 where
    pub quiet : ℕ
    pub out : List Sample
    pub given : r.0 ≡ out ++ silent silence sounds adjust_volume chunk_size quiet
    pub order : remaining s ≡ out ++ remaining r.1
    pub only_at_end : length (remaining s) ≡ 0 ⊎ ((quiet ≡ 0) × (0 < length out))

  get_audio-Given :
      (s : State silence sounds adjust_volume chunk_size)
      → 0 < chunk_size
      → Given s (get_audio silence sounds adjust_volume chunk_size s)
  unfolding get_audio next_chunk silent
  get_audio-Given none pos = record {
    quiet = chunk_size;
    out = [];
    given = refl;
    order = refl;
    only_at_end = inl refl;
  }
  get_audio-Given (some c) pos = elim (Bool-cases (ltb 0 (length c.samples - c.position))) [
    | inr finished ↦
        rw (finished, get_audio)
          (record {
            quiet = chunk_size;
            out = [];
            given = refl;
            order = refl;
            only_at_end =
                inl (length-drop c.position c.samples ∙ omega (arith, ltb→le _ _ finished));
          })
    | inl more ↦
        let k = min (length c.samples - c.position) chunk_size in
        let left = ltb→lt _ _ more in
        let size = length-drop c.position c.samples in
        let later : drop k (drop c.position c.samples) ≡ drop (c.position + k) c.samples =
          sym (drop-add c.position k c.samples) in
        let some_out = length-take k (drop c.position c.samples) (omega (arith, size)) in
        elim (Bool-cases (leb (length c.samples) (c.position + k))) [
          | inl ends ↦
              rw (more, get_audio)
                (rw ends (record {
                  quiet = 0;
                  out = take k (drop c.position c.samples);
                  given = sym (append-nil (take k (drop c.position c.samples)));
                  order =
                      sym (take-append-drop k (drop c.position c.samples))
                      ∙ ap (λ x. take k (drop c.position c.samples) ++ x)
                          (later
                            ∙ nothing_left (drop (c.position + k) c.samples) (
                                omega (
                                  arith,
                                  length-drop (c.position + k) c.samples,
                                  leb→le _ _ ends,
                                )));
                  only_at_end = inr (refl, omega (arith, some_out, left, pos));
                }))
          | inr goes_on ↦
              rw (more, get_audio)
                (rw goes_on (record {
                  quiet = 0;
                  out = take k (drop c.position c.samples);
                  given = sym (append-nil (take k (drop c.position c.samples)));
                  order =
                      sym (take-append-drop k (drop c.position c.samples))
                      ∙ ap (λ x. take k (drop c.position c.samples) ++ x) later;
                  only_at_end = inr (refl, omega (arith, some_out, left, pos));
                }))
        ]
  ]

  -- The samples, and then silence.
  abbrev pub Sounds : List Sample → List Sample → Type 0
  Sounds heard xs =
      (quiet : ℕ) × (heard ≡ xs ++ silent silence sounds adjust_volume chunk_size quiet)

  quiet_first :
      (out more heard rest : List Sample) (quiet : ℕ)
      → length (out ++ more) ≡ 0
      → heard ≡ out ++ silent silence sounds adjust_volume chunk_size quiet
      → Sounds rest more
      → Sounds (heard ++ rest) (out ++ more)
  quiet_first out more heard rest quiet h e (m, e') =
      let no_out = nothing_left out (omega (arith, h, length-append out more)) in
      let no_more = nothing_left more (omega (arith, h, length-append out more)) in
      (
        quiet + m,
        ap (λ x. x ++ rest)
              (e ∙ ap (λ x. x ++ silent silence sounds adjust_volume chunk_size quiet) no_out)
            ∙ ap (λ x. silent silence sounds adjust_volume chunk_size quiet ++ x)
                (e' ∙ ap (λ x. x ++ silent silence sounds adjust_volume chunk_size m) no_more)
            ∙ silent-append quiet m
            ∙ sym (
                ap (λ x. x ++ silent silence sounds adjust_volume chunk_size (quiet + m))
                  (nothing_left (out ++ more) h)),
      )

  samples_first :
      (out more heard rest : List Sample) (quiet : ℕ)
      → quiet ≡ 0
      → heard ≡ out ++ silent silence sounds adjust_volume chunk_size quiet
      → Sounds rest more
      → Sounds (heard ++ rest) (out ++ more)
  unfolding silent
  samples_first out more heard rest quiet h e (m, e') = (
    m,
    ap (λ x. x ++ rest)
          (e ∙ ap (λ q. out ++ silent silence sounds adjust_volume chunk_size q) h ∙ append-nil out)
        ∙ ap (λ x. out ++ x) e'
        ∙ sym (append_assoc out more (silent silence sounds adjust_volume chunk_size m)),
  )

  calls-Sounds :
      (k : ℕ) (s : State silence sounds adjust_volume chunk_size)
      → 0 < chunk_size
      → length (remaining s) ≤ k
      → Sounds (calls silence sounds adjust_volume chunk_size k s) (remaining s)
  unfolding calls silent
  calls-Sounds zero s pos h =
      (0, sym (append-nil (remaining s) ∙ nothing_left (remaining s) (omega (arith, h))))
  calls-Sounds (suc k) s pos h =
      let g = get_audio-Given s pos in
      let next = (get_audio silence sounds adjust_volume chunk_size s).1 in
      let size = length-append g.out (remaining next) in
      elim g.only_at_end [
        | inl at_end ↦ subst (Sounds _) (sym g.order) (
            quiet_first g.out (remaining next) _ _ g.quiet (sym (ap length g.order) ∙ at_end)
              g.given (calls-Sounds k next pos (omega (arith, h, size, ap length g.order, at_end))))
        | inr (no_quiet, some_out) ↦ subst (Sounds _) (sym g.order) (
            samples_first g.out (remaining next) _ _ g.quiet no_quiet g.given
              (calls-Sounds k next pos (omega (arith, h, size, ap length g.order, some_out))))
      ]

  -- If a call takes at least a sample, then after a sound that is known was started, whatever was
  -- played before, as many calls as it has samples give the whole sound at its volume, once and in order,
  -- and nothing but silence behind it.
  pub play-Sounds :
      (sound_id : String) (volume k : ℕ) (s : State silence sounds adjust_volume chunk_size)
      (samples : List Sample)
      → 0 < chunk_size
      → sounds sound_id ≡ some samples
      → length (adjust_volume samples volume) ≤ k
      → Sounds
          (calls silence sounds adjust_volume chunk_size k
            (play silence sounds adjust_volume chunk_size sound_id volume s))
          (adjust_volume samples volume)
  unfolding play
  play-Sounds sound_id volume k s samples pos known h =
      rw (known, play)
        (calls-Sounds k (some (record { samples = adjust_volume samples volume; position = 0 })) pos
          h)
