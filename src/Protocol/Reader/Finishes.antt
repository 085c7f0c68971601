-- ===== src/Protocol/Reader/Finishes.antt =====
-- `Finishes m bs a`: where `bs` is all that is left, the read `m` returns `a`.
use voiceapp.Base.{ℕ, ◌≡◌, sym, subst, List, [], ◌++◌, append-nil, ok}
use voiceapp.Protocol.Reader.{Reader, Read, ◌>>=◌, pure}
use voiceapp.Protocol.Reader.Reads.{At, Reads, Reads-last}

-- A read that takes all that is there.
pub record Finishes {ℓ} {A : Type ℓ} (m : Read A) (bs : List ℕ) (a : A) : Type ℓ where
  pub at : (r : Reader) → At r bs → (r' : Reader) × (m r ≡ ok (a, r'))

pub Finishes-bind {ℓ κ} :
    {A : Type ℓ} {B : Type κ} (m : Read A) (f : A → Read B) {bs cs : List ℕ} {a : A} {b : B}
    → Reads m bs a
    → Finishes (f a) cs b
    → Finishes (m >>= f) (bs ++ cs) b
unfolding ◌>>=◌
Finishes-bind m f {bs} {cs} rm rf = record {
  at = λ r here.
      let (r', e, _, here') = rm.at r cs here in
      let (r'', e') = rf.at r' here' in (r'', rw (e, ◌>>=◌) e');
}

pub Finishes-of_Reads {ℓ} :
    {A : Type ℓ} {m : Read A} {bs : List ℕ} {a : A} → Reads m bs a → Finishes m bs a
Finishes-of_Reads {bs} rm = record {
  at =
      λ r here. let (r', e, _, _) = rm.at r [] (subst (At r) (sym (append-nil bs)) here) in (r', e);
}

pub Finishes-last {ℓ κ} :
    {A : Type ℓ} {B : Type κ} (m : Read A) (f : A → Read B) {bs : List ℕ} {a : A} {b : B}
    → Reads m bs a
    → f a ≡ pure b
    → Finishes (m >>= f) bs b
Finishes-last m f rm e = Finishes-of_Reads (Reads-last m f rm e)
