-- ===== src/Protocol/Reader/Reads.antt =====
-- `Reads m bs a`: in front of the bytes `bs` the read `m` takes them all and returns `a`, whatever
-- follows them.
use voiceapp.Base.{
  ℕ, zero, suc, ◌+◌, ◌^◌, ◌≤◌, ◌<◌, ◌≡◌, refl, ap, ◌∙◌, subst, Bool, true, false, some, List, [],
  ◌∷◌, ◌++◌, append-nil, append_assoc, arith, length, length-append, length-drop, take, drop,
  drop-add, take-length-append, drop-length-append, get_elem?, le→leb, ok,
}
use voiceapp.Protocol.Bytes.{
  to_be_bytes, from_be_bytes, length-to_be_bytes, from_be_bytes-to_be_bytes,
}
use voiceapp.Protocol.Utf8.{is_utf8}
use voiceapp.Protocol.Writer.{from_bool}
use voiceapp.Protocol.Writer.Emits.{string_bytes}
use voiceapp.Protocol.Reader.{
  Reader, Read, ◌>>=◌, pure, read_u8, read_slice, read_u16, read_u32, read_u64, read_bool,
  from_utf8, read_string,
}

-- The bytes from the cursor on are `bs`.
pub record At (r : Reader) (bs : List ℕ) : Type 0 where
  pub fits : r.pos ≤ length r.bytes
  pub rest : drop r.pos r.bytes ≡ bs

pub record Reads {ℓ} {A : Type ℓ} (m : Read A) (bs : List ℕ) (a : A) : Type ℓ where
  pub at :
      (r : Reader) (rest : List ℕ)
      → At r (bs ++ rest)
      → (r' : Reader) × (m r ≡ ok (a, r')) × (r'.pos ≡ r.pos + length bs) × At r' rest

module _ {ℓ κ} {A : Type ℓ} {B : Type κ} (m : Read A) (f : A → Read B) where
  pub Reads-bind :
      {bs cs : List ℕ} {a : A} {b : B}
      → Reads m bs a
      → Reads (f a) cs b
      → Reads (m >>= f) (bs ++ cs) b
  unfolding ◌>>=◌
  Reads-bind {bs} {cs} {a} rm rf = record {
    at = λ r rest here.
        let (r', e, moved, here') =
          rm.at r (cs ++ rest) (subst (At r) (append_assoc bs cs rest) here) in
        let (r'', e', moved', here'') = rf.at r' rest here' in
        (r'', rw (e, ◌>>=◌) e', omega (arith, length-append bs cs), here'');
  }

  -- The last read, whose value goes into the result.
  pub Reads-last :
      {bs : List ℕ} {a : A} {b : B} → Reads m bs a → f a ≡ pure b → Reads (m >>= f) bs b
  unfolding ◌>>=◌ pure
  Reads-last {a} {b} rm last = record {
    at = λ r rest here.
        let (r', e, moved, here') = rm.at r rest here in
        (r', rw (e, ◌>>=◌) (ap (λ (g : Read B). g r') last), moved, here');
  }

At-room : (r : Reader) (bs rest : List ℕ) → At r (bs ++ rest) → r.pos + length bs ≤ length r.bytes
At-room r bs rest here =
    omega (arith, here.fits, ap length here.rest, length-append bs rest, length-drop r.pos r.bytes)

At-advance :
    (r : Reader) (bs rest : List ℕ)
    → At r (bs ++ rest)
    → At (record r { pos = r.pos + length bs }) rest
At-advance r bs rest here = record {
  fits = At-room r bs rest here;
  rest =
      drop-add r.pos (length bs) r.bytes
      ∙ ap (drop (length bs)) here.rest
      ∙ drop-length-append bs rest;
}

pub Reads-slice : (bs : List ℕ) → Reads (read_slice (length bs)) bs bs
unfolding read_slice
Reads-slice bs = record {
  at = λ r rest here. (
    record r { pos = r.pos + length bs },
    rw (le→leb _ _ (At-room r bs rest here)) (
        ap (λ (t : List ℕ). ok (t, record r { pos = r.pos + length bs }))
          (ap (take (length bs)) here.rest ∙ take-length-append bs rest)),
    refl,
    At-advance r bs rest here,
  );
}

-- A read of as many bytes as a word takes.
Reads-word :
    (n v : ℕ)
    → v < 256 ^ n
    → Reads (read_slice n >>= λ bytes. pure (from_be_bytes bytes)) (to_be_bytes n v) v
Reads-word n v h =
    Reads-last _ _
      (subst (λ k. Reads (read_slice k) (to_be_bytes n v) (to_be_bytes n v))
        (length-to_be_bytes n v) (Reads-slice (to_be_bytes n v)))
      (ap pure (from_be_bytes-to_be_bytes n v h))

pub Reads-u16 : (v : ℕ) → v < 2 ^ 16 → Reads read_u16 (to_be_bytes 2 v) v
unfolding read_u16
Reads-u16 v h = Reads-word 2 v h

pub Reads-u32 : (v : ℕ) → v < 2 ^ 32 → Reads read_u32 (to_be_bytes 4 v) v
unfolding read_u32
Reads-u32 v h = Reads-word 4 v h

pub Reads-u64 : (v : ℕ) → v < 2 ^ 64 → Reads read_u64 (to_be_bytes 8 v) v
unfolding read_u64
Reads-u64 v h = Reads-word 8 v h

-- What stands at the cursor.
get_elem?-drop :
    (i : ℕ) (xs : List ℕ) {y : ℕ} {ys : List ℕ} → drop i xs ≡ y ∷ ys → get_elem? xs i ≡ some y
get_elem?-drop zero [] h = cc
get_elem?-drop zero (x ∷ xs) h = cc
get_elem?-drop (suc i) [] h = cc
get_elem?-drop (suc i) (x ∷ xs) h = get_elem?-drop i xs h

pub Reads-u8 : (b : ℕ) → Reads read_u8 (b ∷ []) b
unfolding read_u8
Reads-u8 b = record {
  at = λ r rest here. (
    record r { pos = r.pos + 1 },
    rw (get_elem?-drop r.pos r.bytes here.rest, read_u8),
    refl,
    At-advance r (b ∷ []) rest here,
  );
}

pub Reads-bool : (b : Bool) → Reads read_bool (from_bool b ∷ []) b
unfolding read_bool
Reads-bool true = Reads-last _ _ (Reads-u8 1) refl
Reads-bool false = Reads-last _ _ (Reads-u8 0) refl

Reads-from_utf8 : (s : List ℕ) → is_utf8 s ≡ true → Reads (from_utf8 s) [] s
unfolding from_utf8
Reads-from_utf8 s valid = record { at = λ r rest here. (r, rw valid, omega arith, here) }

pub Reads-string :
    (s : List ℕ) → is_utf8 s ≡ true → length s < 2 ^ 16 → Reads read_string (string_bytes s) s
unfolding read_string
Reads-string s valid short = Reads-bind _ _ (Reads-u16 (length s) short) (
    subst (λ bs. Reads (read_slice (length s) >>= from_utf8) bs s) (append-nil s)
      (Reads-bind _ _ (Reads-slice s) (Reads-from_utf8 s valid)))

pub Reads-pure {ℓ} : {A : Type ℓ} (a : A) → Reads (pure a) [] a
unfolding pure
Reads-pure a = record { at = λ r rest here. (r, refl, omega arith, here) }
