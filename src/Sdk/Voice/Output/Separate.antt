-- ===== src/Sdk/Voice/Output/Separate.antt =====
-- The decoders and their packets, user by user.
use voiceapp.Base.{
  ℕ, ◌<◌, ◌≡◌, ◌≢◌, refl, sym, ap, ◌∙◌, inl, inr, ◌==◌, ==_iff, true, false, Bool-cases,
  if◌then◌else◌, Option, none, some, Option-cases, none-some, List, [], ◌∷◌, arith,
}
use voiceapp.Table.{Table, get-insert_same, get-insert_other}
use voiceapp.Protocol.Packet.{Packet, voice_data}
use voiceapp.Sdk.Voice.Output.{
  NetEq, Decoder, Outputs, no_outputs, consume_voice_data, update, process_packet,
  process_incoming_packets,
}

module _ {Sample : Type 0} (n : NetEq Sample) (tu : Table (ℕ × ℕ)) (td : Table (Decoder n)) where
  -- A user's decoder exists, and no two users have the same.
  pub record IsSeparate (s : Outputs n tu td) : Type 0 where
    pub known :
        (u : ℕ) {rate a : ℕ}
        → tu.get s.output_decoders u ≡ some (rate, a)
        → (a < s.next) × ((d : Decoder n) × (td.get s.decoders a ≡ some d))
    pub apart :
        (u v : ℕ) {r q a b : ℕ}
        → u ≢ v
        → tu.get s.output_decoders u ≡ some (r, a)
        → tu.get s.output_decoders v ≡ some (q, b)
        → a ≢ b

  -- What the user's output is: its rate and its decoder.
  unfoldable pub voice_output : ℕ → Outputs n tu td → Option (ℕ × Decoder n)
  voice_output u s = elim (tu.get s.output_decoders u) [
    | none ↦ none
    | some (rate, a) ↦ elim (td.get s.decoders a) [ none ↦ none | some d ↦ some (rate, d) ]
  ]

  -- The decoder after the packets of the user, one after the other; the packets of others are not for it.
  abbrev pub consume_of : ℕ → Packet → Decoder n → Decoder n
  consume_of u (voice_data user_id sequence timestamp opus_frame) d =
      if u == user_id
      then (consume_voice_data n
          (record {
            sequence = sequence;
            timestamp = timestamp;
            user_id = user_id;
            opus_frame = opus_frame;
          })
          d).1
      else d
  consume_of u _ d = d

  abbrev pub consume_all : ℕ → List Packet → Decoder n → Decoder n
  consume_all u [] d = d
  consume_all u (p ∷ ps) d = consume_all u ps (consume_of u p d)

  unfoldable pub played : (Decoder n → Decoder n) → Option (ℕ × Decoder n) → Option (ℕ × Decoder n)
  played f none = none
  played f (some (rate, d)) = some (rate, f d)

  pub no_outputs-IsSeparate : IsSeparate (no_outputs n tu td)
  no_outputs-IsSeparate = record {
    known = λ u e. absurd (none-some (sym (tu.get-empty u) ∙ e));
    apart = λ u v differ e. absurd (none-some (sym (tu.get-empty u) ∙ e));
  }

  pub stays :
      (m : td.Map) (a b : ℕ) (f : Decoder n) {d : Decoder n}
      → td.get m b ≡ some d
      → (d' : Decoder n) × (td.get (td.insert m a f) b ≡ some d')
  stays m a b f {d} e = elim (Bool-cases (b == a)) [
    | inl same ↦ (f, td.get-insert m a f b ∙ rw same refl)
    | inr other ↦ (d, td.get-insert m a f b ∙ rw other e)
  ]

  update-IsSeparate :
      (a : ℕ) (f : Decoder n → Decoder n) (s : Outputs n tu td)
      → IsSeparate s
      → IsSeparate (update n tu td a f s)
  unfolding update
  update-IsSeparate a f s h = elim (Option-cases (td.get s.decoders a)) [
    | inl missing ↦ rw (missing, update) h
    | inr (d, e) ↦
        rw (e, update)
          (record {
            known = λ u e'. ((h.known u e').0, stays s.decoders a _ (f d) (h.known u e').1.1);
            apart = h.apart;
          })
  ]

  pub output_lem :
      (u : ℕ) (s : Outputs n tu td) {rate a : ℕ} {d : Decoder n}
      → tu.get s.output_decoders u ≡ some (rate, a)
      → td.get s.decoders a ≡ some d
      → voice_output u s ≡ some (rate, d)
  unfolding voice_output
  output_lem u s e e' = rw (e, voice_output) (rw e' refl)

  pub silent_output :
      (u : ℕ) (s : Outputs n tu td) → tu.get s.output_decoders u ≡ none → voice_output u s ≡ none
  unfolding voice_output
  silent_output u s e = rw (e, voice_output) refl

  update_lem :
      (a : ℕ) (f : Decoder n → Decoder n) (s : Outputs n tu td) {d : Decoder n}
      → td.get s.decoders a ≡ some d
      → update n tu td a f s ≡ record s { decoders = td.insert s.decoders a (f d) }
  unfolding update
  update_lem a f s e = rw (e, update) refl

  -- A change of a user's decoder is one of that user's output, and of no other.
  update_own :
      (u : ℕ) (f : Decoder n → Decoder n) (s : Outputs n tu td) {rate a : ℕ}
      → IsSeparate s
      → tu.get s.output_decoders u ≡ some (rate, a)
      → voice_output u (update n tu td a f s) ≡ played f (voice_output u s)
  unfolding played
  update_own u f s {rate} {a} h e =
      let (below, (d, e')) = h.known u e in
      ap (voice_output u) (update_lem a f s e')
      ∙ output_lem u _ e (get-insert_same td s.decoders a (f d))
      ∙ sym (ap (played f) (output_lem u s e e'))

  update_other :
      (u v : ℕ) (f : Decoder n → Decoder n) (s : Outputs n tu td) {rate a : ℕ}
      → IsSeparate s
      → v ≢ u
      → tu.get s.output_decoders u ≡ some (rate, a)
      → voice_output v (update n tu td a f s) ≡ voice_output v s
  update_other u v f s {rate} {a} h differ e =
      let (below, (d, e')) = h.known u e in
      ap (voice_output v) (update_lem a f s e') ∙ elim (Option-cases (tu.get s.output_decoders v)) [
        | inl missing ↦ silent_output v _ missing ∙ sym (silent_output v s missing)
        | inr ((q, b), other) ↦
            let (below', (d', e'')) = h.known v other in
            output_lem v _ other
              (get-insert_other td s.decoders (f d) (h.apart v u differ other e) ∙ e'')
            ∙ sym (output_lem v s other e'')
      ]

  process_packet-IsSeparate :
      (p : Packet) (s : Outputs n tu td) → IsSeparate s → IsSeparate (process_packet n tu td p s)
  unfolding process_packet
  process_packet-IsSeparate (voice_data u q t bytes) s h =
      elim (Option-cases (tu.get s.output_decoders u)) [
        | inl missing ↦ rw (missing, process_packet) h
        | inr ((rate, a), e) ↦ rw (e, process_packet) (update-IsSeparate a _ s h)
      ]
  process_packet-IsSeparate _ s h = h

  played_id : (o : Option (ℕ × Decoder n)) → played (λ d. d) o ≡ o
  unfolding played
  played_id none = refl
  played_id (some o) = refl

  played_own :
      (u v q t : ℕ) (bytes : List ℕ) (o : Option (ℕ × Decoder n))
      → (u == v) ≡ true
      → played (consume_of u (voice_data v q t bytes)) o
        ≡ played
            (λ d.
              (consume_voice_data n
                (record { sequence = q; timestamp = t; user_id = v; opus_frame = bytes })
                d).1)
            o
  unfolding played
  played_own u v q t bytes none same = refl
  played_own u v q t bytes (some (rate, d)) same = rw same refl

  played_other :
      (u v q t : ℕ) (bytes : List ℕ) (o : Option (ℕ × Decoder n))
      → (u == v) ≡ false
      → played (consume_of u (voice_data v q t bytes)) o ≡ o
  unfolding played
  played_other u v q t bytes none other = refl
  played_other u v q t bytes (some (rate, d)) other = rw other refl

  played_none : (f : Decoder n → Decoder n) → played f none ≡ none
  unfolding played
  played_none f = refl

  played_comp :
      (f g : Decoder n → Decoder n) (o : Option (ℕ × Decoder n))
      → played g (played f o) ≡ played (λ d. g (f d)) o
  unfolding played
  played_comp f g none = refl
  played_comp f g (some o) = refl

  process_packet-output :
      (u : ℕ) (p : Packet) (s : Outputs n tu td)
      → IsSeparate s
      → voice_output u (process_packet n tu td p s) ≡ played (consume_of u p) (voice_output u s)
  unfolding process_packet
  process_packet-output u (voice_data v q t bytes) s h =
      elim (Option-cases (tu.get s.output_decoders v)) [
        | inl missing ↦ elim (Bool-cases (u == v)) [
          | inl same ↦
              let silent =
                silent_output u s (ap (tu.get s.output_decoders) ((==_iff u v).0 same) ∙ missing) in
              rw (missing, process_packet) (silent ∙ sym (ap (played _) silent ∙ played_none _))
          | inr other ↦
              rw (missing, process_packet)
                (sym (played_other u v q t bytes (voice_output u s) other))
        ]
        | inr ((rate, a), e) ↦ elim (Bool-cases (u == v)) [
          | inl same ↦
              rw (e, process_packet)
                (update_own u _ s h (ap (tu.get s.output_decoders) ((==_iff u v).0 same) ∙ e)
                  ∙ sym (played_own u v q t bytes (voice_output u s) same))
          | inr other ↦
              rw (e, process_packet)
                (update_other v u _ s h (differs u v other) e
                  ∙ sym (played_other u v q t bytes (voice_output u s) other))
        ]
      ]
    where
      differs : (u v : ℕ) → (u == v) ≡ false → u ≢ v
      differs u v other e = ground (arith, other, e)
  process_packet-output u _ s h = sym (played_id (voice_output u s))

  -- In a state in which the decoders of the users are apart, as in the one at the start, the decoder
  -- of each user gets exactly the voice packets of that user, in the order of their arrival, whatever
  -- packets of others come between them; a user without a decoder has none afterwards.
  pub process_incoming-output :
      (ps : List Packet) (u : ℕ) (s : Outputs n tu td)
      → IsSeparate s
      → voice_output u (process_incoming_packets n tu td ps s)
        ≡ played (consume_all u ps) (voice_output u s)
  unfolding process_incoming_packets
  process_incoming-output [] u s h = sym (played_id (voice_output u s))
  process_incoming-output (p ∷ ps) u s h =
      process_incoming-output ps u (process_packet n tu td p s) (process_packet-IsSeparate p s h)
      ∙ ap (played (consume_all u ps)) (process_packet-output u p s h)
      ∙ played_comp (consume_of u p) (consume_all u ps) (voice_output u s)
