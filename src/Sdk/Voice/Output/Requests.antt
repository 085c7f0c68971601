-- ===== src/Sdk/Voice/Output/Requests.antt =====
-- What the player is given for a user.
use voiceapp.Base.{
  ℕ, ◌+◌, ◌<◌, ◌≡◌, ◌≢◌, refl, sym, ap, ◌∙◌, ◌⊎◌, inl, inr, ◌==◌, ==_iff, false, Bool-cases, some,
  Option-cases, some_inj, Result, ok, err, arith,
}
use voiceapp.Table.{Table, get-insert_same, get-insert_other}
use voiceapp.Sdk.Error.{SdkError}
use voiceapp.Sdk.Voice.Output.{NetEq, Decoder, Outputs, create_output, get_or_create_voice_output}
use voiceapp.Sdk.Voice.Output.Separate.{IsSeparate, voice_output, stays, output_lem, silent_output}

module _ {Sample : Type 0} (n : NetEq Sample) (tu : Table (ℕ × ℕ)) (td : Table (Decoder n)) where
  -- A request gives the decoder that stands under the user's number, for the rate that was asked for,
  -- and leaves the outputs of the others; one that fails changes nothing.
  abbrev pub Gives : ℕ → ℕ → Outputs n tu td → Result ℕ SdkError → Outputs n tu td → Type 0
  Gives u rate s (err e) s' = s' ≡ s
  Gives u rate s (ok a) s' =
      (tu.get s'.output_decoders u ≡ some (rate, a))
      × IsSeparate n tu td s'
      × ((v : ℕ) → v ≢ u → voice_output n tu td v s' ≡ voice_output n tu td v s)

  below_ne : {a b : ℕ} → a < b → a ≢ b
  below_ne h e = ground (arith, h, e)

  ==_ne : {a b : ℕ} → (a == b) ≡ false → a ≢ b
  ==_ne h e = ground (arith, h, e)

  record_inj : {x y : ℕ × ℕ} → some x ≡ some y → x.1 ≡ y.1
  record_inj e = ap (λ (x : ℕ × ℕ). x.1) (some_inj e)

  -- The users' decoders after a new one for `u`.
  added : ℕ → ℕ → n.State → Outputs n tu td → Outputs n tu td
  added u rate neteq s = record {
    output_decoders = tu.insert s.output_decoders u (rate, s.next);
    decoders = td.insert s.decoders s.next (record { poisoned = false; neteq = neteq });
    next = s.next + 1;
  }

  -- What stands under a number is the new one, or was there before.
  looked_up :
      (u v rate : ℕ) (neteq : n.State) (s : Outputs n tu td) {q b : ℕ}
      → tu.get (added u rate neteq s).output_decoders v ≡ some (q, b)
      → ((v ≡ u) × (b ≡ s.next)) ⊎ ((v ≢ u) × (tu.get s.output_decoders v ≡ some (q, b)))
  unfolding added
  looked_up u v rate neteq s e = elim (Bool-cases (v == u)) [
    | inl same ↦
        let new : tu.get (added u rate neteq s).output_decoders v ≡ some (rate, s.next) =
          tu.get-insert s.output_decoders u (rate, s.next) v ∙ rw same refl in
        inl ((==_iff v u).0 same, sym (record_inj (sym new ∙ e)))
    | inr other ↦
        inr (
          ==_ne other,
          sym (tu.get-insert s.output_decoders u (rate, s.next) v ∙ rw other refl) ∙ e,
        )
  ]

  added-IsSeparate :
      (u rate : ℕ) (neteq : n.State) (s : Outputs n tu td)
      → IsSeparate n tu td s
      → IsSeparate n tu td (added u rate neteq s)
  unfolding added
  added-IsSeparate u rate neteq s h = record {
    known = λ v e. elim (looked_up u v rate neteq s e) [
      | inl (same, fresh) ↦ (
        omega (arith, fresh),
        (
          _,
          ap (td.get (added u rate neteq s).decoders) fresh
              ∙ get-insert_same td s.decoders s.next _,
        ),
      )
      | inr (other, e') ↦
          let (below, (d, there)) = h.known v e' in
          (omega arith, stays n tu td s.decoders s.next _ _ there)
    ];
    apart = λ v w differ e e'. elim (looked_up u v rate neteq s e) [
      | inl (same, fresh) ↦ elim (looked_up u w rate neteq s e') [
        | inl (same', fresh') ↦ absurd (differ (same ∙ sym same'))
        | inr (other', old') ↦ λ x. below_ne (h.known w old').0 (sym x ∙ fresh)
      ]
      | inr (other, old) ↦ elim (looked_up u w rate neteq s e') [
        | inl (same', fresh') ↦ λ x. below_ne (h.known v old).0 (x ∙ fresh')
        | inr (other', old') ↦ h.apart v w differ old old'
      ]
    ];
  }

  added_others :
      (u rate : ℕ) (neteq : n.State) (s : Outputs n tu td)
      → IsSeparate n tu td s
      → (v : ℕ) → v ≢ u
      → voice_output n tu td v (added u rate neteq s) ≡ voice_output n tu td v s
  unfolding added
  added_others u rate neteq s h v differ =
      let same = get-insert_other tu s.output_decoders (rate, s.next) differ in
      elim (Option-cases (tu.get s.output_decoders v)) [
        | inl missing ↦
            silent_output n tu td v (added u rate neteq s) (same ∙ missing)
            ∙ sym (silent_output n tu td v s missing)
        | inr ((q, b), e) ↦
            let (below, (d, there)) = h.known v e in
            output_lem n tu td v (added u rate neteq s) (same ∙ e)
              (get-insert_other td s.decoders _ (below_ne below) ∙ there)
            ∙ sym (output_lem n tu td v s e there)
      ]

  create_output-Gives :
      (u rate : ℕ) (s : Outputs n tu td)
      → IsSeparate n tu td s
      → Gives u rate s (create_output n tu td u rate s).0 (create_output n tu td u rate s).1
  unfolding create_output added
  create_output-Gives u rate s h = elim (Option-cases (n.create rate)) [
    | inl failed ↦ rw (failed, create_output, Gives) refl
    | inr (neteq, e) ↦
        rw (e, create_output, Gives)
          (
            get-insert_same tu s.output_decoders u (rate, s.next),
            added-IsSeparate u rate neteq s h,
            added_others u rate neteq s h,
          )
  ]

  -- In a state in which the decoders of the users are apart, a request for the output of a user gives
  -- the decoder that is then stored for that user, with the rate that was asked for; the outputs of the
  -- other users stay as they are, and all decoders stay apart. If the decoder cannot be created,
  -- nothing changes.
  pub get_or_create-Gives :
      (u rate : ℕ) (s : Outputs n tu td)
      → IsSeparate n tu td s
      → Gives u rate s
          (get_or_create_voice_output n tu td u rate s).0
          (get_or_create_voice_output n tu td u rate s).1
  unfolding get_or_create_voice_output
  get_or_create-Gives u rate s h = elim (Option-cases (tu.get s.output_decoders u)) [
    | inl missing ↦ rw (missing, get_or_create_voice_output) (create_output-Gives u rate s h)
    | inr ((current, a), e) ↦ elim (Bool-cases (current == rate)) [
      | inl same ↦
          rw (e, get_or_create_voice_output)
            (rw same
              (e ∙ ap (λ r. some (r, a)) ((==_iff current rate).0 same), h, λ v differ. refl))
      | inr other ↦ rw (e, get_or_create_voice_output) (rw other (create_output-Gives u rate s h))
    ]
  ]
