-- ===== src/Sdk/Voice/Drain.antt =====
-- The loop `while buffer.len() >= n { let chunk = buffer.drain(0..n).collect(); ... }`, which
-- sdk/src/voice/input_pipeline.rs has twice. The rest of the body is the parameter `step`.
use voiceapp.Base.{
  ℕ, zero, suc, ◌≤◌, ◌<◌, ◌≡◌, refl, subst, ◌∙◌, ◌⊎◌, inl, inr, List, ◌++◌, take, drop, length,
  length-append, length-drop, take-append, drop-append, leb, leb→le, le→leb, leb→lt, lt→leb, true,
  false, Bool-cases, arith,
}

-- How a round ends: the loop goes on, or the function returns or panics.
pub data Turn {ℓ} (S : Type ℓ) : Type ℓ where
  goes stops : S → Turn S
  panics : Turn S

-- How the loop ends, with what is left of the buffer. `stuck` is no outcome of the program: the
-- fuel ran out.
pub data Drained {ℓ κ} (A : Type ℓ) (S : Type κ) : Type (ℓ ⊔ κ) where
  drained cut : List A → S → Drained A S
  panicked stuck : Drained A S

Turn-cases {ℓ} :
    {S : Type ℓ} (t : Turn S)
    → ((s : S) × (t ≡ goes s)) ⊎ (((s : S) × (t ≡ stops s)) ⊎ (t ≡ panics))
Turn-cases (goes s) = inl (s, refl)
Turn-cases (stops s) = inr (inl (s, refl))
Turn-cases panics = inr (inr refl)

module _ {ℓ κ} {A : Type ℓ} {S : Type κ} (n : ℕ) (step : List A → S → Turn S) where
  unfoldable pub drain_loop : ℕ → List A → S → Drained A S
  drain_loop zero buf s = stuck
  drain_loop (suc fuel) buf s = elim (leb n (length buf)) [
    | false ↦ drained buf s
    | true ↦ elim (step (take n buf) s) [
      | goes s' ↦ drain_loop fuel (drop n buf) s'
      | stops s' ↦ cut (drop n buf) s'
      | panics ↦ panicked
    ]
  ]

  -- A round takes a sample at least, so one more round than there are samples is enough.
  unfoldable pub drain : List A → S → Drained A S
  drain buf s = drain_loop (suc (length buf)) buf s

  shorter :
      (fuel : ℕ) (buf : List A)
      → 0 < n
      → n ≤ length buf
      → length buf < suc fuel
      → length (drop n buf) < fuel
  shorter fuel buf pos h enough = omega (arith, length-drop n buf)

  -- Enough fuel gives the result that any other fuel gives that is enough.
  drain_fuel :
      (a b : ℕ) (buf : List A) (s : S)
      → 0 < n
      → length buf < a
      → length buf < b
      → drain_loop a buf s ≡ drain_loop b buf s
  unfolding drain_loop
  drain_fuel zero b buf s pos ha hb = elim ha [ ]
  drain_fuel (suc a) zero buf s pos ha hb = elim hb [ ]
  drain_fuel (suc a) (suc b) buf s pos ha hb = elim (Bool-cases (leb n (length buf))) [
    | inr few ↦ rw (few, drain_loop) refl
    | inl many ↦
        let le = leb→le n (length buf) many in
        elim (Turn-cases (step (take n buf) s)) [
          | inl (s', e) ↦
              rw (many, drain_loop)
                (rw e (
                  drain_fuel a b (drop n buf) s' pos (shorter a buf pos le ha)
                    (shorter b buf pos le hb)))
          | inr (inl (s', e)) ↦ rw (many, drain_loop) (rw e refl)
          | inr (inr e) ↦ rw (many, drain_loop) (rw e refl)
        ]
  ]

  pub drain-few : (buf : List A) (s : S) → length buf < n → drain buf s ≡ drained buf s
  unfolding drain drain_loop
  drain-few buf s h = rw (lt→leb n (length buf) h, drain, drain_loop)

  pub drain_goes :
      (buf : List A) (s s' : S)
      → 0 < n
      → n ≤ length buf
      → step (take n buf) s ≡ goes s'
      → drain buf s ≡ drain (drop n buf) s'
  unfolding drain drain_loop
  drain_goes buf s s' pos le e =
      rw (le→leb n (length buf) le, drain, drain_loop)
        (rw e (
          drain_fuel (length buf) (suc (length (drop n buf))) (drop n buf) s' pos
            (omega (arith, length-drop n buf)) (omega arith)))

  -- Induction over the rounds of the loop. That its fuel is enough is a part of it.
  module _ {μ} (C : List A → S → Drained A S → Type μ) (pos : 0 < n)
      (few : (buf : List A) (s : S) → length buf < n → C buf s (drained buf s))
      (on : (buf : List A) (s s' : S) (d : Drained A S)
        → n ≤ length buf
        → step (take n buf) s ≡ goes s'
        → C (drop n buf) s' d
        → C buf s d)
      (out : (buf : List A) (s s' : S)
        → n ≤ length buf
        → step (take n buf) s ≡ stops s'
        → C buf s (cut (drop n buf) s'))
      (panic : (buf : List A) (s : S)
        → n ≤ length buf
        → step (take n buf) s ≡ panics
        → C buf s panicked) where
    drain_loop_ind :
        (fuel : ℕ) (buf : List A) (s : S) → length buf < fuel → C buf s (drain_loop fuel buf s)
    unfolding drain_loop
    drain_loop_ind zero buf s h = elim h [ ]
    drain_loop_ind (suc fuel) buf s h = elim (Bool-cases (leb n (length buf))) [
      | inr under ↦ rw (under, drain_loop) (few buf s (omega (arith, leb→lt n (length buf) under)))
      | inl many ↦
          let le = leb→le n (length buf) many in
          elim (Turn-cases (step (take n buf) s)) [
            | inl (s', e) ↦
                rw (many, drain_loop)
                  (rw e (
                    on buf s s' _ le e
                      (drain_loop_ind fuel (drop n buf) s' (shorter fuel buf pos le h))))
            | inr (inl (s', e)) ↦ rw (many, drain_loop) (rw e (out buf s s' le e))
            | inr (inr e) ↦ rw (many, drain_loop) (rw e (panic buf s le e))
          ]
    ]

    pub drain_ind : (buf : List A) (s : S) → C buf s (drain buf s)
    unfolding drain
    drain_ind buf s = drain_loop_ind (suc (length buf)) buf s (omega arith)

  -- A part of the samples, and then the next part behind what the first one left.
  abbrev pub then_drain : List A → Drained A S → Drained A S
  then_drain more (drained rest s) = drain (rest ++ more) s
  then_drain more (cut rest s) = cut (rest ++ more) s
  then_drain more panicked = panicked
  then_drain more stuck = stuck

  pub drain-append :
      0 < n → (ys xs : List A) (s : S) → drain (xs ++ ys) s ≡ then_drain ys (drain xs s)
  unfolding drain drain_loop
  drain-append pos ys =
      drain_ind (λ xs s d. drain (xs ++ ys) s ≡ then_drain ys d) pos (λ xs s h. refl)
        (λ xs s s' d le e h.
          drain_goes (xs ++ ys) s s' pos (longer xs le) (rw (take-append n xs ys le) e)
          ∙ (rw (drop-append n xs ys le) h))
        (λ xs s s' le e.
          rw (le→leb _ _ (longer xs le), drain, drain_loop)
            (rw (take-append n xs ys le) (rw e (rw (drop-append n xs ys le) refl))))
        (λ xs s le e.
          rw (le→leb _ _ (longer xs le), drain, drain_loop)
            (rw (take-append n xs ys le) (rw e refl)))
    where
      longer : (xs : List A) → n ≤ length xs → n ≤ length (xs ++ ys)
      longer xs le = omega (arith, length-append xs ys)

  -- `P` while the loop goes on, and `Q` where it is left.
  abbrev pub Holds : (P Q : S → Type 0) → Turn S → Type 0
  Holds P Q (goes s) = P s
  Holds P Q (stops s) = Q s
  Holds P Q panics = ⊥

  -- At the end of the loop, what is left is shorter than a chunk.
  abbrev pub Ends : (P Q : S → Type 0) → Drained A S → Type 0
  Ends P Q (drained rest s) = P s × (length rest < n)
  Ends P Q (cut rest s) = Q s
  Ends P Q panicked = ⊥
  Ends P Q stuck = ⊥

  pub drain-Ends :
      (P Q : S → Type 0)
      → 0 < n
      → ((xs : List A) (s : S) → P s → Holds P Q (step xs s))
      → (buf : List A) (s : S) → P s
      → Ends P Q (drain buf s)
  drain-Ends P Q pos keeps =
      drain_ind (λ buf s d. P s → Ends P Q d) pos (λ buf s h p. (p, h))
        (λ buf s s' d le e ih p. ih (subst (Holds P Q) e (keeps (take n buf) s p)))
        (λ buf s s' le e p. subst (Holds P Q) e (keeps (take n buf) s p))
        (λ buf s le e p. absurd (subst (Holds P Q) e (keeps (take n buf) s p)))
