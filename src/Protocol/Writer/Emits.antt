-- ===== src/Protocol/Writer/Emits.antt =====
-- What a write appends to the buffer: `Emits` if it cannot panic, `Attempts` if it may.
use voiceapp.Base.{
  ℕ, ◌^◌, ◌<◌, ◌≡◌, refl, sym, ap, ◌∙◌, ◌⊎◌, inl, inr, Bool, Bool-cases, none, some, List, [], ◌∷◌,
  ◌++◌, append-nil, append_assoc, length, ltb, lt→ltb,
}
use voiceapp.Protocol.Bytes.{to_be_bytes}
use voiceapp.Protocol.Writer.{
  Writer, Write, ◌>>◌, done, write_u8, write_u16, write_u32, write_u64, write_bool, write_string,
  write_bytes, with_u16, from_bool,
}

abbrev pub extended : Writer → List ℕ → Writer
extended w bs = record { buf = w.buf ++ bs }

pub record Emits (m : Write) (bs : List ℕ) : Type 0 where
  pub at : (w : Writer) → m w ≡ some (extended w bs)

pub record Attempts (m : Write) (bs : List ℕ) : Type 0 where
  pub at : (w : Writer) → (m w ≡ none) ⊎ (m w ≡ some (extended w bs))

pub Attempts_of_Emits : {m : Write} {bs : List ℕ} → Emits m bs → Attempts m bs
Attempts_of_Emits e = record { at = λ w. inr (e.at w) }

extended-extended :
    (w : Writer) (bs cs : List ℕ) → extended (extended w bs) cs ≡ extended w (bs ++ cs)
extended-extended w bs cs = ap (λ b. record { buf = b }) (append_assoc w.buf bs cs)

pub Emits-done : Emits done []
unfolding done
Emits-done = record { at = λ w. ap (λ b. some (record { buf = b })) (sym (append-nil w.buf)) }

pub Emits-then :
    {m k : Write} {bs cs : List ℕ} → Emits m bs → Emits k cs → Emits (m >> k) (bs ++ cs)
unfolding ◌>>◌
Emits-then {m} {k} {bs} {cs} em ek = record {
  at = λ w. rw (em.at w, ◌>>◌) (ek.at (extended w bs) ∙ ap some (extended-extended w bs cs));
}

pub Attempts-then :
    {m k : Write} {bs cs : List ℕ} → Attempts m bs → Attempts k cs → Attempts (m >> k) (bs ++ cs)
unfolding ◌>>◌
Attempts-then {m} {k} {bs} {cs} am ak = record {
  at = λ w. elim (am.at w) [
    | inl panic ↦ inl (rw (panic, ◌>>◌))
    | inr e ↦ rw (e, ◌>>◌) (rw (sym (extended-extended w bs cs)) (ak.at (extended w bs)))
  ];
}

pub Emits-write_bytes : (bs : List ℕ) → Emits (write_bytes bs) bs
unfolding write_bytes
Emits-write_bytes bs = record { at = λ w. refl }

pub Emits-write_u8 : (v : ℕ) → Emits (write_u8 v) (v ∷ [])
unfolding write_u8
Emits-write_u8 v = record { at = λ w. refl }

pub Emits-write_u16 : (v : ℕ) → Emits (write_u16 v) (to_be_bytes 2 v)
unfolding write_u16 write_bytes
Emits-write_u16 v = record { at = λ w. refl }

pub Emits-write_u32 : (v : ℕ) → Emits (write_u32 v) (to_be_bytes 4 v)
unfolding write_u32 write_bytes
Emits-write_u32 v = record { at = λ w. refl }

pub Emits-write_u64 : (v : ℕ) → Emits (write_u64 v) (to_be_bytes 8 v)
unfolding write_u64 write_bytes
Emits-write_u64 v = record { at = λ w. refl }

pub Emits-write_bool : (b : Bool) → Emits (write_bool b) (from_bool b ∷ [])
unfolding write_bool
Emits-write_bool b = record { at = λ w. refl }

pub Emits-with_u16 : (n : ℕ) → n < 2 ^ 16 → Emits (with_u16 n write_u16) (to_be_bytes 2 n)
unfolding with_u16 write_u16 write_bytes
Emits-with_u16 n h = record { at = λ w. rw (lt→ltb n (2 ^ 16) h) }

pub Attempts-with_u16 : (n : ℕ) → Attempts (with_u16 n write_u16) (to_be_bytes 2 n)
unfolding with_u16 write_u16 write_bytes
Attempts-with_u16 n = record {
  at = λ w. elim (Bool-cases (ltb n (2 ^ 16))) [ inl e ↦ inr (rw e) | inr e ↦ inl (rw e) ];
}

-- A string on the wire: its length and its bytes.
abbrev pub string_bytes : List ℕ → List ℕ
string_bytes s = to_be_bytes 2 (length s) ++ s

pub Emits-write_string : (s : List ℕ) → length s < 2 ^ 16 → Emits (write_string s) (string_bytes s)
unfolding write_string
Emits-write_string s h = Emits-then (Emits-with_u16 (length s) h) (Emits-write_bytes s)

pub Attempts-write_string : (s : List ℕ) → Attempts (write_string s) (string_bytes s)
unfolding write_string
Attempts-write_string s =
    Attempts-then (Attempts-with_u16 (length s)) (Attempts_of_Emits (Emits-write_bytes s))

pub ruleset emits_rules = (
  Emits-then, Emits-done, Emits-write_bytes, Emits-write_u16, Emits-write_u32, Emits-write_u64,
  Emits-write_bool, Emits-write_string, Emits-with_u16,
)

pub ruleset attempts_rules = (
  Attempts-then, Attempts_of_Emits, Attempts-with_u16, Attempts-write_string, Emits-done,
  Emits-write_bytes, Emits-write_u32, Emits-write_u64, Emits-write_bool,
)
