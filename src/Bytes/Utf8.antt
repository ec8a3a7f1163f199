-- ===== src/Bytes/Utf8.antt =====
-- `String::from_utf8`: a string is its bytes, which are well-formed UTF-8.
use bcmr.Prelude.{ℕ, zero, suc, ◌<◌, ◌≡◌, refl, arith, ltb, leb, ◌==◌, if◌then◌else◌}
use bcmr.Prelude.{Bool, true, false, ◌&&◌, Option, none, some, [], ◌∷◌, All}
use bcmr.Bytes.Word.{Bytes, IsByte}

-- How many continuation bytes are due, and the range of the next one.
pub record Due : Type 0 where
  pub count : ℕ
  pub low : ℕ
  pub high : ℕ

abbrev due : ℕ → ℕ → ℕ → Option Due
due n lo hi = some (record { count = n; low = lo; high = hi })

-- The first byte of a character.
first : ℕ → Option Due
first b =
    if ltb b 0x80
    then due 0 0x80 0xbf
    else if ltb b 0xc2
    then none
    else if ltb b 0xe0
    then due 1 0x80 0xbf
    else if b == 0xe0
    then due 2 0xa0 0xbf
    else if b == 0xed
    then due 2 0x80 0x9f
    else if ltb b 0xf0
    then due 2 0x80 0xbf
    else if b == 0xf0
    then due 3 0x90 0xbf
    else if ltb b 0xf4
    then due 3 0x80 0xbf
    else if b == 0xf4
    then due 3 0x80 0x8f
    else none

next : ℕ → ℕ → ℕ → ℕ → Option Due
unfolding first
next zero lo hi b = first b
next (suc n) lo hi b = if leb lo b && leb b hi then due n 0x80 0xbf else none

is_utf8_from : Option Due → Bytes → Bool
unfolding next
is_utf8_from none bs = false
is_utf8_from (some d) [] = d.count == 0
is_utf8_from (some d) (b ∷ bs) = is_utf8_from (next d.count d.low d.high b) bs

unfoldable pub is_utf8 : Bytes → Bool
unfolding is_utf8_from
is_utf8 bs = is_utf8_from (due 0 0x80 0xbf) bs

-- The bytes of a `String`.
pub record IsString (bytes : Bytes) : Type 0 where
  pub bytes_in_range : All IsByte bytes
  pub utf8 : is_utf8 bytes ≡ true

ascii_from : (bs : Bytes) → All (λ b. b < 128) bs → is_utf8_from (due 0 0x80 0xbf) bs ≡ true
unfolding is_utf8_from
ascii_from [] h = refl
ascii_from (b ∷ bs) (hb, h) = ground (arith, ascii_from bs h)

-- ASCII text is UTF-8.
pub is_utf8-ascii : (bs : Bytes) → All (λ b. b < 128) bs → is_utf8 bs ≡ true
unfolding is_utf8
is_utf8-ascii bs h = ascii_from bs h

-- "ß€" is valid; an overlong form, a surrogate and a cut character are not.
utf8_cases :
    (is_utf8 (0xc3 ∷ 0x9f ∷ 0xe2 ∷ 0x82 ∷ 0xac ∷ []) ≡ true)
    × (is_utf8 (0xc0 ∷ 0x80 ∷ []) ≡ false)
    × (is_utf8 (0xed ∷ 0xa0 ∷ 0x80 ∷ []) ≡ false)
    × (is_utf8 (0xe2 ∷ 0x82 ∷ []) ≡ false)
unfolding is_utf8
utf8_cases = (refl, refl, refl, refl)
