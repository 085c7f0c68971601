-- ===== src/Protocol/Bytes.antt =====
-- Bytes and big-endian words, as `to_be_bytes` and `from_be_bytes` of the standard library.
use native.Mathlib.Nat.{pow-suc, add-zero}
use voiceapp.Base.{
  ℕ, zero, suc, ◌+◌, ◌*◌, ◌/◌, ◌%◌, ◌^◌, ◌<◌, ◌≡◌, refl, subst, ◌∙◌, List, [], ◌∷◌, ◌++◌, arith,
  length, All, length-append, All-append,
}

abbrev pub IsByte : ℕ → Type 0
IsByte b = b < 256

unfoldable pub to_be_bytes : ℕ → ℕ → List ℕ
to_be_bytes zero v = []
to_be_bytes (suc n) v = to_be_bytes n (v / 256) ++ (v % 256) ∷ []

from_be_loop : ℕ → List ℕ → ℕ
from_be_loop acc [] = acc
from_be_loop acc (b ∷ bs) = from_be_loop (acc * 256 + b) bs

unfoldable pub from_be_bytes : List ℕ → ℕ
unfolding from_be_loop
from_be_bytes bs = from_be_loop 0 bs

pub length-to_be_bytes : (n v : ℕ) → length (to_be_bytes n v) ≡ n
unfolding to_be_bytes
length-to_be_bytes zero v = refl
length-to_be_bytes (suc n) v = omega (
  arith,
  length-append (to_be_bytes n (v / 256)) ((v % 256) ∷ []),
  length-to_be_bytes n (v / 256),
)

pub to_be_bytes-IsByte : (n v : ℕ) → All IsByte (to_be_bytes n v)
unfolding to_be_bytes
to_be_bytes-IsByte zero v = tt
to_be_bytes-IsByte (suc n) v =
    All-append IsByte (to_be_bytes n (v / 256)) _ (to_be_bytes-IsByte n (v / 256)) (omega arith)

from_be_loop-append :
    (acc : ℕ) (bs cs : List ℕ) → from_be_loop acc (bs ++ cs) ≡ from_be_loop (from_be_loop acc bs) cs
unfolding from_be_loop
from_be_loop-append acc [] cs = refl
from_be_loop-append acc (b ∷ bs) cs = from_be_loop-append (acc * 256 + b) bs cs

pow256-suc : (n : ℕ) → 256 ^ suc n ≡ 256 * 256 ^ n
pow256-suc n = pow-suc 256 n ∙ omega arith

div-lt : (n v : ℕ) → v < 256 ^ suc n → v / 256 < 256 ^ n
div-lt n v h = omega (arith, pow256-suc n)

pub from_be_bytes-to_be_bytes : (n v : ℕ) → v < 256 ^ n → from_be_bytes (to_be_bytes n v) ≡ v
unfolding from_be_bytes to_be_bytes
from_be_bytes-to_be_bytes zero v h = omega arith
from_be_bytes-to_be_bytes (suc n) v h =
    from_be_loop-append 0 (to_be_bytes n (v / 256)) ((v % 256) ∷ [])
    ∙ omega (arith, from_be_bytes-to_be_bytes n (v / 256) (div-lt n v h))

add_suc : (m n : ℕ) → m + suc n ≡ suc m + n
add_suc m n = omega arith

from_be_loop-lt :
    (n acc : ℕ) (bs : List ℕ)
    → acc < 256 ^ n
    → All IsByte bs
    → from_be_loop acc bs < 256 ^ (n + length bs)
unfolding from_be_loop
from_be_loop-lt n acc [] h bytes = rw add-zero h
from_be_loop-lt n acc (b ∷ bs) h bytes =
    rw (add_suc n (length bs))
      (from_be_loop-lt (suc n) (acc * 256 + b) bs (omega (arith, pow256-suc n)) bytes.1)

-- A word of n bytes is below 256 ^ n.
pub from_be_bytes-lt : (bs : List ℕ) → All IsByte bs → from_be_bytes bs < 256 ^ length bs
unfolding from_be_bytes
from_be_bytes-lt bs bytes =
    subst (λ k. from_be_loop 0 bs < 256 ^ k) (omega arith)
      (from_be_loop-lt 0 0 bs (omega arith) bytes)
