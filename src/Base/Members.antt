-- ===== src/Base/Members.antt =====
-- Membership with its place, and lists that are filtered and mapped in one pass.
use mathlib.Core.Path.{◌≡◌, refl, sym, ◌∙◌}
use mathlib.Core.Logic.{◌⊎◌, inl, inr, ◌↔◌}
use mathlib.Core.Option.{Option, none, some}
use mathlib.Core.List.{List, [], ◌∷◌}
use voiceapp.Base.Tests.{Option-cases}

abbrev pub Member : {A : Type 0} → A → List A → Type 0
Member a [] = ⊥
Member a (x ∷ xs) = (a ≡ x) ⊎ Member a xs

unfoldable pub filter_map {ℓ κ} : {A : Type ℓ} {B : Type κ} → (A → Option B) → List A → List B
filter_map f [] = []
filter_map f (x ∷ xs) = let rest = filter_map f xs in elim (f x) [ none ↦ rest | some b ↦ b ∷ rest ]

module _ {A B : Type 0} (f : A → Option B) where
  Member-of_filter_map :
      (xs : List A) (b : B) → Member b (filter_map f xs) → (a : A) × Member a xs × (f a ≡ some b)
  unfolding filter_map
  Member-of_filter_map [] b h = absurd h
  Member-of_filter_map (x ∷ xs) b h = elim (Option-cases (f x)) [
    | inl e ↦ let r = Member-of_filter_map xs b (rw (e, Member) at h) in (r.0, inr r.1, r.2)
    | inr (c, e) ↦
        let h' : (b ≡ c) ⊎ Member b (filter_map f xs) = rw (e, Member) at h in
        elim h' [
          | inl same ↦ (x, inl refl, e ∙ sym (cong_some same))
          | inr later ↦ let r = Member-of_filter_map xs b later in (r.0, inr r.1, r.2)
        ]
  ]
    where
      cong_some : {b c : B} → b ≡ c → some b ≡ some c
      cong_some h = cc

  Member-filter_map :
      (xs : List A) (a : A) (b : B) → Member a xs → f a ≡ some b → Member b (filter_map f xs)
  unfolding filter_map
  Member-filter_map [] a b h e = absurd h
  Member-filter_map (x ∷ xs) a b (inl same) e =
      let e' : f x ≡ some b = cc in rw (e', Member) (inl refl)
  Member-filter_map (x ∷ xs) a b (inr later) e = elim (Option-cases (f x)) [
    | inl skip ↦ rw (skip, Member) (Member-filter_map xs a b later e)
    | inr (c, keep) ↦ rw (keep, Member) (inr (Member-filter_map xs a b later e))
  ]

  pub filter_map_iff :
      (xs : List A) (b : B) → Member b (filter_map f xs) ↔ ((a : A) × Member a xs × (f a ≡ some b))
  filter_map_iff xs b = (Member-of_filter_map xs b, λ h. Member-filter_map xs h.0 b h.1 h.2)
