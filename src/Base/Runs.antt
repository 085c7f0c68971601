-- ===== src/Base/Runs.antt =====
-- Code that changes a state, and fails or panics: the state is kept on each way out.

pub data Run {ℓ κ ι} (W : Type ℓ) (E : Type κ) (A : Type ι) : Type (ℓ ⊔ κ ⊔ ι) where
  done : A → W → Run W E A
  failed : E → W → Run W E A
  panicked : W → Run W E A

infixl 5 ◌>>=◌
unfoldable pub ◌>>=◌ {ℓ κ ι μ} :
    {W : Type ℓ} {E : Type κ} {A : Type ι} {B : Type μ}
    → (W → Run W E A)
    → (A → W → Run W E B)
    → W
    → Run W E B
◌>>=◌ m f w = elim (m w) [
  | done a w' ↦ f a w'
  | failed e w' ↦ failed e w'
  | panicked w' ↦ panicked w'
]

infixl 5 ◌>>◌
unfoldable pub ◌>>◌ {ℓ κ ι μ} :
    {W : Type ℓ} {E : Type κ} {A : Type ι} {B : Type μ}
    → (W → Run W E A)
    → (W → Run W E B)
    → W
    → Run W E B
◌>>◌ m k w = elim (m w) [ done a w' ↦ k w' | failed e w' ↦ failed e w' | panicked w' ↦ panicked w' ]

unfoldable pub pure {ℓ κ ι} : {W : Type ℓ} {E : Type κ} {A : Type ι} → A → W → Run W E A
pure a w = done a w

-- The state that a run leaves, whichever way it ends.
abbrev pub final {ℓ κ ι} : {W : Type ℓ} {E : Type κ} {A : Type ι} → Run W E A → W
final (done a w) = w
final (failed e w) = w
final (panicked w) = w
