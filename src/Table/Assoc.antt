-- ===== src/Table/Assoc.antt =====
-- An association list has the operations and the laws of `Table`.
use voiceapp.Base.{
  ℕ, ◌==◌, ==_iff, if◌then◌else◌, ◌≡◌, refl, sym, ap, ◌∙◌, ◌⊎◌, inl, inr, false, Bool-cases, Option,
  none, some, List, [], ◌∷◌, arith, Member,
}
use voiceapp.Table.{Table}

module _ {V : Type 0} where
  abbrev lookup : List (ℕ × V) → ℕ → Option V
  lookup [] j = none
  lookup ((k, v) ∷ m) j = if j == k then some v else lookup m j

  abbrev without : List (ℕ × V) → ℕ → List (ℕ × V)
  without [] k = []
  without ((j, v) ∷ m) k = let rest = without m k in if j == k then rest else ((j, v) ∷ rest)

  abbrev distinct : List (ℕ × V) → List (ℕ × V)
  distinct [] = []
  distinct ((k, v) ∷ m) = (k, v) ∷ without (distinct m) k

  pub lookup-without :
      (m : List (ℕ × V)) (k j : ℕ) → lookup (without m k) j ≡ (if j == k then none else lookup m j)
  lookup-without [] k j = ground arith
  lookup-without ((i, v) ∷ m) k j = ground (arith, lookup-without m k j)

  pub lookup-distinct : (m : List (ℕ × V)) (j : ℕ) → lookup (distinct m) j ≡ lookup m j
  lookup-distinct [] j = refl
  lookup-distinct ((k, v) ∷ m) j =
      ground (arith, lookup-without (distinct m) k j, lookup-distinct m j)

  other_key :
      (i j k : ℕ) (u v : V) → Path (ℕ × V) (j, v) (i, u) → (i == k) ≡ false → (j == k) ≡ false
  other_key i j k u v e keeps = ap (λ (x : ℕ × V). x.0 == k) e ∙ keeps

  lookup_of_absent :
      (m : List (ℕ × V)) (k j : ℕ) (v : V)
      → Member (j, v) (without m k)
      → Member (j, v) m × ((j == k) ≡ false)
  lookup_of_absent [] k j v h = absurd h
  lookup_of_absent ((i, u) ∷ m) k j v h = elim (Bool-cases (i == k)) [
    | inl drops ↦ let r = lookup_of_absent m k j v (rw (drops, Member) at h) in (inr r.0, r.1)
    | inr keeps ↦
        let h' : Path (ℕ × V) (j, v) (i, u) ⊎ Member (j, v) (without m k) =
          rw (keeps, Member) at h in
        elim h' [
          | inl e ↦ (inl e, other_key i j k u v e keeps)
          | inr later ↦ let r = lookup_of_absent m k j v later in (inr r.0, r.1)
        ]
  ]

  pub Member-of_lookup : (m : List (ℕ × V)) (k : ℕ) (v : V) → lookup m k ≡ some v → Member (k, v) m
  Member-of_lookup [] k v e = absurd (cc)
  Member-of_lookup ((i, u) ∷ m) k v e = elim (Bool-cases (k == i)) [
    | inl same ↦
        let e' : some u ≡ some v = sym (rw same) ∙ e in
        let key : k ≡ i = (==_iff k i).0 same in
        inl (let u_v : u ≡ v = cc in (λ t. (key t, sym u_v t)))
    | inr other ↦ inr (Member-of_lookup m k v (sym (rw other) ∙ e))
  ]

  pub lookup-of_Member :
      (m : List (ℕ × V)) (k : ℕ) (v : V) → Member (k, v) (distinct m) → lookup m k ≡ some v
  lookup-of_Member [] k v h = absurd h
  lookup-of_Member ((i, u) ∷ m) k v (inl e) =
      let key : k ≡ i = ap (λ (x : ℕ × V). x.0) e in
      let value : v ≡ u = ap (λ (x : ℕ × V). x.1) e in rw ((==_iff k i).1 key) cc
  lookup-of_Member ((i, u) ∷ m) k v (inr later) =
      let r = lookup_of_absent (distinct m) i k v later in rw r.1 (lookup-of_Member m k v r.0)

-- An association list in which a later entry hides the earlier ones.
abbrev pub assoc : (V : Type 0) → Table V
assoc V = record {
  Map = List (ℕ × V);
  empty = [];
  get = lookup;
  insert = λ m k v. (k, v) ∷ m;
  remove = without;
  entries = distinct;
  get-empty = λ k. refl;
  get-insert = λ m k v j. refl;
  get-remove = lookup-without;
  entries_iff = λ m k v.
      (lookup-of_Member m k v, λ e. Member-of_lookup (distinct m) k v (lookup-distinct m k ∙ e));
}
