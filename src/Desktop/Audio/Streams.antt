-- ===== src/Desktop/Audio/Streams.antt =====
-- Which streams there are.
use voiceapp.Base.{
  ℕ, ◌≡◌, ◌≢◌, refl, sym, ap, subst, ◌∙◌, inl, inr, ◌==◌, ==_iff, false, Bool-cases, some,
  Option-cases, none-some, List, [], ◌∷◌, All, Result-cases, arith,
}
use voiceapp.Table.{Table}
use voiceapp.Sdk.Voice.Output.{NetEq, Decoder, get_or_create_voice_output}
use voiceapp.Desktop.Audio.{
  Sound, Devices, OutputStream, AudioManager, start_recording, create_output_stream_for_user,
  remove_output_stream_for_user, remove_all_output_streams, init_notification_player,
  play_notification, create_output_streams,
}

module _ {Sample : Type 0} (n : NetEq Sample) (tu : Table (ℕ × ℕ)) (td : Table (Decoder n))
    (ts : Table OutputStream) where
  -- Only users with P have a stream.
  pub record Only (P : ℕ → Type 0) (a : AudioManager n tu td ts) : Type 0 where
    pub at : (v : ℕ) {x : OutputStream} → ts.get a.output_streams v ≡ some x → P v

  pub Only-map :
      {P Q : ℕ → Type 0} (a : AudioManager n tu td ts) → ((v : ℕ) → P v → Q v) → Only P a → Only Q a
  Only-map a f h = record { at = λ v e. f v (h.at v e) }

  pub play-Only :
      {P : ℕ → Type 0} (sound : Sound) (a : AudioManager n tu td ts)
      → Only P a
      → Only P (play_notification n tu td ts sound a)
  unfolding play_notification
  play-Only sound a h = elim (Option-cases a.notification_stream) [
    | inl silent ↦ rw (silent, play_notification) h
    | inr (stream, e) ↦ rw (e, play_notification) (record { at = h.at })
  ]

  pub init-Only :
      {P : ℕ → Type 0} (d : Devices) (a : AudioManager n tu td ts)
      → Only P a
      → Only P (init_notification_player n tu td ts d a)
  unfolding init_notification_player
  init-Only d a h = elim (Option-cases (d.create_output_stream d.output_device)) [
    | inl failed ↦ rw (failed, init_notification_player) h
    | inr (stream, e) ↦ rw (e, init_notification_player) (record { at = h.at })
  ]

  pub start-Only :
      {P : ℕ → Type 0} (d : Devices) (a : AudioManager n tu td ts)
      → Only P a
      → Only P (start_recording n tu td ts d a)
  unfolding start_recording
  start-Only d a h = elim (Option-cases (d.create_input_stream d.input_device)) [
    | inl failed ↦ rw (failed, start_recording) h
    | inr (stream, e) ↦ elim (Bool-cases (d.get_voice_input_sender d.input_device.sample_rate)) [
      | inl given ↦ rw (e, start_recording) (rw given (record { at = h.at }))
      | inr refused ↦ rw (e, start_recording) (rw refused h)
    ]
  ]

  insert-Only :
      (P : ℕ → Type 0) (a a' : AudioManager n tu td ts) (u : ℕ) (x : OutputStream)
      → a'.output_streams ≡ ts.insert a.output_streams u x
      → P u
      → Only P a
      → Only P a'
  insert-Only P a a' u x e p h = record {
    at = λ v there. elim (Bool-cases (v == u)) [
      | inl same ↦ subst P (sym ((==_iff v u).0 same)) p
      | inr other ↦ h.at v (
          sym (ap (λ m. ts.get m v) e ∙ ts.get-insert a.output_streams u x v ∙ rw other refl)
          ∙ there)
    ];
  }

  pub create-Only :
      {P : ℕ → Type 0} (d : Devices) (u : ℕ) (a : AudioManager n tu td ts)
      → P u
      → Only P a
      → Only P (create_output_stream_for_user n tu td ts d u a)
  unfolding create_output_stream_for_user
  create-Only d u a p h =
      let given =
        get_or_create_voice_output n tu td u d.output_device.sample_rate a.voice_outputs in
      elim (Result-cases given.0) [
        | inr (e, failed) ↦ rw (failed, create_output_stream_for_user) (record { at = h.at })
        | inl (decoder, made) ↦ elim (Option-cases (d.create_output_stream d.output_device)) [
          | inl closed ↦ rw (made, create_output_stream_for_user) (rw closed (record { at = h.at }))
          | inr (stream, e) ↦
              rw (made, create_output_stream_for_user) (rw e (insert-Only _ a _ u _ refl p h))
        ]
      ]

  pub creates-Only :
      {P : ℕ → Type 0} (d : Devices) (us : List ℕ) (a : AudioManager n tu td ts)
      → All P us
      → Only P a
      → Only P (create_output_streams n tu td ts d us a)
  unfolding create_output_streams
  creates-Only d [] a ps h = h
  creates-Only d (u ∷ us) a ps h = creates-Only d us _ ps.1 (create-Only d u a ps.0 h)

  pub remove_all-Only :
      {P : ℕ → Type 0} (a : AudioManager n tu td ts)
      → Only P (remove_all_output_streams n tu td ts a)
  unfolding remove_all_output_streams
  remove_all-Only a = record { at = λ v e. absurd (none-some (sym (ts.get-empty v) ∙ e)) }

  pub remove-Only :
      {P Q : ℕ → Type 0} (u : ℕ) (a : AudioManager n tu td ts)
      → ((v : ℕ) → v ≢ u → P v → Q v)
      → Only P a
      → Only Q (remove_output_stream_for_user n tu td ts u a)
  unfolding remove_output_stream_for_user
  remove-Only u a f h = record {
    at = λ v there. elim (Bool-cases (v == u)) [
      | inl same ↦
          absurd (none-some (sym (ts.get-remove a.output_streams u v ∙ rw same refl) ∙ there))
      | inr other ↦
          f v (differs v u other)
            (h.at v (sym (ts.get-remove a.output_streams u v ∙ rw other refl) ∙ there))
    ];
  }
    where
      differs : (v u : ℕ) → (v == u) ≡ false → v ≢ u
      differs v u other e = ground (arith, other, e)

  pub play-input :
      (sound : Sound) (a : AudioManager n tu td ts)
      → (play_notification n tu td ts sound a).input_stream ≡ a.input_stream
  unfolding play_notification
  play-input sound a = elim (Option-cases a.notification_stream) [
    | inl silent ↦ rw (silent, play_notification) refl
    | inr (stream, e) ↦ rw (e, play_notification) refl
  ]

  pub init-input :
      (d : Devices) (a : AudioManager n tu td ts)
      → (init_notification_player n tu td ts d a).input_stream ≡ a.input_stream
  unfolding init_notification_player
  init-input d a = elim (Option-cases (d.create_output_stream d.output_device)) [
    | inl failed ↦ rw (failed, init_notification_player) refl
    | inr (stream, e) ↦ rw (e, init_notification_player) refl
  ]
