-- ===== src/Protocol/Reader/Yields.antt =====
-- `Yields m s P`: if the read `m` succeeds at position s, it ends at some position t within the
-- bytes, and `P t` holds of what it returned.
use voiceapp.Base.{
  ℕ, zero, suc, ◌+◌, ◌^◌, ◌≤◌, ◌<◌, ◌≡◌, refl, sym, ap, ◌∙◌, subst, true, inl, inr, List, [], ◌∷◌,
  arith, length, length-take, length-drop, take, drop, All, All-take, All-drop, leb, leb→le,
  Bool-cases, get_elem?, Option-cases, Result-cases, Result, ok, not, ◌==◌, some,
}
use voiceapp.Protocol.Bytes.{IsByte, from_be_bytes, from_be_bytes-lt}
use voiceapp.Protocol.Utf8.{is_utf8}
use voiceapp.Protocol.Error.{ProtocolError}
use voiceapp.Protocol.Reader.{
  Reader, Read, ◌>>=◌, pure, read_u8, read_slice, read_u16, read_u32, read_u64, read_bool,
  from_utf8, read_string, remaining,
}

module _ (bs : List ℕ) where
  abbrev pub reader_at : ℕ → Reader
  reader_at s = record { bytes = bs; pos = s }

  pub record Ends {ℓ} {A : Type ℓ} (a : A) (r : Reader) (P : ℕ → A → Type 0) : Type ℓ where
    pub end : ℕ
    pub stands : r ≡ reader_at end
    pub within : end ≤ length bs
    pub holds : P end a

  pub record Yields {ℓ} {A : Type ℓ} (m : Read A) (s : ℕ) (P : ℕ → A → Type 0) : Type ℓ where
    pub at : (a : A) (r : Reader) → s ≤ length bs → m (reader_at s) ≡ ok (a, r) → Ends a r P

  pub Yields-weaken {ℓ} :
      {A : Type ℓ} {m : Read A} {s : ℕ} {P Q : ℕ → A → Type 0}
      → ((t : ℕ) (a : A) → P t a → Q t a)
      → Yields m s P
      → Yields m s Q
  Yields-weaken h ym = record {
    at = λ a r fits e.
        let end = ym.at a r fits e in
        record {
          end = end.end;
          stands = end.stands;
          within = end.within;
          holds = h end.end a end.holds;
        };
  }

  Ends-here {ℓ} :
      {A : Type ℓ} (P : ℕ → A → Type 0) (a : A) (t : ℕ) (b : A) (r : Reader)
      → t ≤ length bs
      → P t a
      → ◌≡◌ {A = Result (A × Reader) ProtocolError} (ok (a, reader_at t)) (ok (b, r))
      → Ends b r P
  Ends-here P a t b r within h e =
      let ea : a ≡ b = cc in
      let er : r ≡ reader_at t = cc in
      record { end = t; stands = er; within = within; holds = subst (P t) ea h }

  pub Yields-pure {ℓ} :
      {A : Type ℓ} {P : ℕ → A → Type 0} {s : ℕ} (a : A) → P s a → Yields (pure a) s P
  unfolding pure
  Yields-pure {P} {s} a h = record { at = λ b r fits e. Ends-here P a s b r fits h e }

  pub Yields-bind {ℓ κ} :
      {A : Type ℓ} {B : Type κ} {P : ℕ → A → Type 0} {Q : ℕ → B → Type 0} {s : ℕ} (m : Read A)
      (f : A → Read B)
      → Yields m s P
      → ((t : ℕ) (a : A) → P t a → Yields (f a) t Q)
      → Yields (m >>= f) s Q
  unfolding ◌>>=◌
  Yields-bind {s} m f ym yf = record {
    at = λ b r'' fits e. elim (Result-cases (m (reader_at s))) [
      | inl ((a, r'), e') ↦
          let end = ym.at a r' fits e' in
          (yf end.end a end.holds).at b r'' end.within
            (sym (ap (f a) end.stands) ∙ (rw (e', ◌>>=◌) at e))
      | inr (x, e') ↦ absurd (cc (rw (e', ◌>>=◌) at e))
    ];
  }

  -- The last read, whose value goes into the result.
  pub Yields-last {ℓ κ} :
      {A : Type ℓ} {B : Type κ} {P : ℕ → A → Type 0} {Q : ℕ → B → Type 0} {s : ℕ} (m : Read A)
      (g : A → B)
      → Yields m s P
      → ((t : ℕ) (a : A) → P t a → Q t (g a))
      → Yields (m >>= λ a. pure (g a)) s Q
  Yields-last m g ym h = Yields-bind m _ ym (λ t a p. Yields-pure (g a) (h t a p))

  pub Yields-remaining :
      (s : ℕ) → Yields (λ r. ok (remaining r, r)) s (λ t a. (t ≡ s) × (a ≡ drop s bs))
  unfolding remaining
  Yields-remaining s = record {
    at = λ a r fits e.
        Ends-here (λ t a. (t ≡ s) × (a ≡ drop s bs)) (drop s bs) s a r fits (refl, refl) e;
  }

module _ (bs : List ℕ) (bytes : All IsByte bs) where
  Yields-slice :
      (n s : ℕ) → Yields bs (read_slice n) s (λ t a. (t ≡ s + n) × (length a ≡ n) × All IsByte a)
  unfolding read_slice
  Yields-slice n s = record {
    at = λ a r fits e. elim (Bool-cases (leb (s + n) (length bs))) [
      | inl room ↦
          let inside : s + n ≤ length bs = leb→le _ _ room in
          Ends-here bs (λ t a. (t ≡ s + n) × (length a ≡ n) × All IsByte a) (take n (drop s bs))
            (s + n) a r inside
            (
              refl,
              length-take n (drop s bs) (omega (arith, length-drop s bs)),
              All-take IsByte n _ (All-drop IsByte s bs bytes),
            )
            (rw (room, read_slice) at e)
      | inr short ↦ absurd (cc (rw (short, read_slice) at e))
    ];
  }

  Yields-word :
      (n s : ℕ)
      → Yields bs
          (read_slice n >>= λ a. pure (from_be_bytes a))
          s
          (λ t v. (t ≡ s + n) × (v < 256 ^ n))
  Yields-word n s =
      Yields-last bs _ from_be_bytes (Yields-slice n s)
        λ t a (e, len, b). (e, subst (λ j. from_be_bytes a < 256 ^ j) len (from_be_bytes-lt a b))

  pub Yields-u16 : {s : ℕ} → Yields bs read_u16 s (λ t v. (t ≡ s + 2) × (v < 2 ^ 16))
  unfolding read_u16
  Yields-u16 {s} = Yields-word 2 s

  pub Yields-u32 : {s : ℕ} → Yields bs read_u32 s (λ t v. (t ≡ s + 4) × (v < 2 ^ 32))
  unfolding read_u32
  Yields-u32 {s} = Yields-word 4 s

  pub Yields-u64 : {s : ℕ} → Yields bs read_u64 s (λ t v. (t ≡ s + 8) × (v < 2 ^ 64))
  unfolding read_u64
  Yields-u64 {s} = Yields-word 8 s

  get_elem?-lt : (xs : List ℕ) (i : ℕ) {x : ℕ} → get_elem? xs i ≡ some x → i < length xs
  get_elem?-lt [] i e = absurd (cc)
  get_elem?-lt (y ∷ ys) zero e = omega arith
  get_elem?-lt (y ∷ ys) (suc i) e = omega (arith, get_elem?-lt ys i e)

  pub Yields-u8 : {s : ℕ} → Yields bs read_u8 s (λ t v. t ≡ s + 1)
  unfolding read_u8
  Yields-u8 {s} = record {
    at = λ a r fits e. elim (Option-cases (get_elem? bs s)) [
      | inl out ↦ absurd (cc (rw (out, read_u8) at e))
      | inr (x, here) ↦
          Ends-here bs (λ t v. t ≡ s + 1) x (s + 1) a r (omega (arith, get_elem?-lt bs s here)) refl
            (rw (here, read_u8) at e)
    ];
  }

  pub Yields-bool : {s : ℕ} → Yields bs read_bool s (λ t v. t ≡ s + 1)
  unfolding read_bool
  Yields-bool = Yields-last bs _ (λ v. not (v == 0)) Yields-u8 (λ n a p. p)

  Yields-from_utf8 :
      (a : List ℕ) (s : ℕ)
      → Yields bs (from_utf8 a) s (λ t b. (t ≡ s) × (b ≡ a) × (is_utf8 a ≡ true))
  unfolding from_utf8
  Yields-from_utf8 a s = record {
    at = λ b r fits e. elim (Bool-cases (is_utf8 a)) [
      | inl valid ↦
          Ends-here bs (λ t b. (t ≡ s) × (b ≡ a) × (is_utf8 a ≡ true)) a s b r fits
            (refl, refl, valid) (rw (valid, from_utf8) at e)
      | inr bad ↦ absurd (cc (rw (bad, from_utf8) at e))
    ];
  }

  -- A string is UTF-8, and its length goes with it.
  pub Yields-string :
      {s : ℕ}
      → Yields bs read_string s
          (λ t a. (t ≡ s + (2 + length a)) × All IsByte a × (is_utf8 a ≡ true))
  unfolding read_string
  Yields-string = Yields-bind bs _ _ Yields-u16 λ u len (eu, short).
      Yields-bind bs _ _ (Yields-slice len u) λ v a (ev, el, b).
        Yields-weaken bs
          (λ t c (et, ec, valid). (rw ec (omega arith), subst (All IsByte) (sym ec) b, rw ec valid))
          (Yields-from_utf8 a v)
