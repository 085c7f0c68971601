-- ===== src/Desktop/Audio/State/Members.antt =====
-- The set of the users in the voice channel.
use voiceapp.Base.{
  ℕ, ◌≡◌, ◌≢◌, refl, ap, ◌∙◌, inl, inr, ◌==◌, true, false, Bool-cases, if◌then◌else◌, List, [], ◌∷◌,
  map, All, Member, arith,
}
use voiceapp.Table.{Table}
use voiceapp.Desktop.Audio.State.{contains, users, without, is_some}

pub All-without : (P : ℕ → Type 0) (own : ℕ) (us : List ℕ) → All P us → All P (without own us)
unfolding without
All-without P own [] h = h
All-without P own (u ∷ us) h = elim (Bool-cases (u == own)) [
  | inl same ↦ rw (same, without) (All-without P own us h.1)
  | inr other ↦ rw (other, without) (h.0, All-without P own us h.1)
]

pub All-map : {P Q : ℕ → Type 0} → ((v : ℕ) → P v → Q v) → (us : List ℕ) → All P us → All Q us
All-map f [] h = h
All-map f (u ∷ us) h = (f u h.0, All-map f us h.1)

module _ (tm : Table (Unit {0})) where
  abbrev pub IsIn : tm.Map → ℕ → Type 0
  IsIn m u = contains tm m u ≡ true

  contains_insert :
      (m : tm.Map) (k v : ℕ)
      → contains tm (tm.insert m k tt) v ≡ (if v == k then true else contains tm m v)
  contains_insert m k v = ap is_some (tm.get-insert m k tt v) ∙ ground arith

  contains_remove :
      (m : tm.Map) (k v : ℕ)
      → contains tm (tm.remove m k) v ≡ (if v == k then false else contains tm m v)
  contains_remove m k v = ap is_some (tm.get-remove m k v) ∙ ground arith

  pub weaken : (m : tm.Map) (k v : ℕ) → IsIn m v → IsIn (tm.insert m k tt) v
  weaken m k v h = contains_insert m k v ∙ ground (arith, h)

  pub inserted : (m : tm.Map) (k : ℕ) → IsIn (tm.insert m k tt) k
  inserted m k = contains_insert m k k ∙ ground arith

  pub kept : (m : tm.Map) (k v : ℕ) → v ≢ k → contains tm (tm.insert m k tt) v ≡ contains tm m v
  kept m k v h = contains_insert m k v ∙ ground (arith, h)

  pub left_in : (m : tm.Map) (k v : ℕ) → v ≢ k → contains tm (tm.remove m k) v ≡ contains tm m v
  left_in m k v h = contains_remove m k v ∙ ground (arith, h)

  All-entries :
      (m : tm.Map) (es : List (ℕ × Unit {0}))
      → ((k : ℕ) (x : Unit {0}) → Member (k, x) es → IsIn m k)
      → All (IsIn m) (map (λ (x : ℕ × Unit {0}). x.0) es)
  All-entries m [] h = tt
  All-entries m ((k, x) ∷ es) h =
      (h k x (inl refl), All-entries m es (λ j y there. h j y (inr there)))

  pub All-users : (m : tm.Map) → All (IsIn m) (users tm m)
  All-users m =
      All-entries m (tm.entries m) (λ k x there. ap is_some ((tm.entries_iff m k x).0 there))
