-- ===== src/Protocol/Utf8.antt =====
-- The test that `String::from_utf8` of the standard library makes (RFC 3629), as an automaton.
-- A Rust `String` is the list of its bytes.
use voiceapp.Base.{ℕ, ◌≡◌, refl, Bool, true, false, ◌&&◌, List, [], ◌∷◌, leb, if◌then◌else◌}

-- What may come next: a first byte, one to three continuation bytes, or the second byte behind
-- E0, ED, F0 or F4, whose range is narrower.
pub data State : Type 0 where
  start more1 more2 more3 after_e0 after_ed after_f0 after_f4 reject : State

abbrev between : ℕ → ℕ → ℕ → Bool
between lo hi b = leb lo b && leb b hi

first : ℕ → State
first b =
    if leb b 0x7f
    then start
    else if between 0xc2 0xdf b
    then more1
    else if between 0xe0 0xe0 b
    then after_e0
    else if between 0xed 0xed b
    then after_ed
    else if between 0xe1 0xef b
    then more2
    else if between 0xf0 0xf0 b
    then after_f0
    else if between 0xf1 0xf3 b
    then more3
    else if between 0xf4 0xf4 b
    then after_f4
    else reject

next : State → ℕ → State
unfolding first
next start b = first b
next more1 b = if between 0x80 0xbf b then start else reject
next more2 b = if between 0x80 0xbf b then more1 else reject
next more3 b = if between 0x80 0xbf b then more2 else reject
next after_e0 b = if between 0xa0 0xbf b then more1 else reject
next after_ed b = if between 0x80 0x9f b then more1 else reject
next after_f0 b = if between 0x90 0xbf b then more2 else reject
next after_f4 b = if between 0x80 0x8f b then more2 else reject
next reject b = reject

run : State → List ℕ → State
unfolding next
run s [] = s
run s (b ∷ bs) = run (next s b) bs

abbrev is_start : State → Bool
is_start start = true
is_start _ = false

unfoldable pub is_utf8 : List ℕ → Bool
unfolding run
is_utf8 bs = is_start (run start bs)

euro_sign : is_utf8 (0xe2 ∷ 0x82 ∷ 0xac ∷ 0x61 ∷ []) ≡ true
unfolding is_utf8
euro_sign = refl

surrogate : is_utf8 (0xed ∷ 0xa0 ∷ 0x80 ∷ []) ≡ false
unfolding is_utf8
surrogate = refl
