-- ===== src/Table.antt =====
-- The concurrent map `DashMap` of a third-party package, as the server and the client use it: the
-- operations they call, and what its documentation says of them. A change through `get_mut` is an
-- `insert` of the changed value at a key that is there.
pub mod Assoc
use voiceapp.Base.{
  ℕ, ◌==◌, if◌then◌else◌, ◌≡◌, ◌≢◌, ◌∙◌, ◌↔◌, Option, none, some, List, Member, arith,
}

pub record Table (V : Type 0) : Type 1 where
  pub Map : Type 0
  pub empty : Map
  pub get : Map → ℕ → Option V
  pub insert : Map → ℕ → V → Map
  pub remove : Map → ℕ → Map
  pub entries : Map → List (ℕ × V)
  pub get-empty : (k : ℕ) → get empty k ≡ none
  pub get-insert :
      (m : Map) (k : ℕ) (v : V) (j : ℕ)
      → get (insert m k v) j ≡ (if j == k then some v else get m j)
  pub get-remove : (m : Map) (k j : ℕ) → get (remove m k) j ≡ (if j == k then none else get m j)
  pub entries_iff : (m : Map) (k : ℕ) (v : V) → Member (k, v) (entries m) ↔ (get m k ≡ some v)

module _ {V : Type 0} (t : Table V) where
  pub get-insert_same : (m : t.Map) (k : ℕ) (v : V) → t.get (t.insert m k v) k ≡ some v
  get-insert_same m k v = t.get-insert m k v k ∙ ground arith

  pub get-insert_other :
      (m : t.Map) {k j : ℕ} (v : V) → j ≢ k → t.get (t.insert m k v) j ≡ t.get m j
  get-insert_other m {k} {j} v differ = t.get-insert m k v j ∙ ground (arith, differ)
