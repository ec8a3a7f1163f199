-- ===== src/Bytes/Int.antt =====
-- `i64`, in two's complement.
use bcmr.Prelude.{ℕ, suc, ◌-◌, ◌^◌, ◌<◌, ◌≡◌, arith, ltb, if◌then◌else◌}
use bcmr.Bytes.Word.{IsU64}

-- `negsuc n` is -(n + 1).
pub data ℤ : Type 0 where
  pos : ℕ → ℤ
  negsuc : ℕ → ℤ

abbrev pub IsI64 : ℤ → Type 0
IsI64 (pos n) = n < 2 ^ 63
IsI64 (negsuc n) = n < 2 ^ 63

-- The bit pattern of an `i64`, and the `i64` of a bit pattern.
unfoldable pub i64_bits : ℤ → ℕ
i64_bits (pos n) = n
i64_bits (negsuc n) = 2 ^ 64 - suc n

unfoldable pub i64_of_bits : ℕ → ℤ
i64_of_bits v = if ltb v (2 ^ 63) then pos v else negsuc (2 ^ 64 - 1 - v)

pub i64_of_bits-i64_bits : (z : ℤ) → IsI64 z → i64_of_bits (i64_bits z) ≡ z
unfolding i64_bits i64_of_bits
i64_of_bits-i64_bits (pos n) h = ground arith
i64_of_bits-i64_bits (negsuc n) h = ground arith

pub i64_bits-IsU64 : (z : ℤ) → IsI64 z → IsU64 (i64_bits z)
unfolding i64_bits
i64_bits-IsU64 (pos n) h = omega arith
i64_bits-IsU64 (negsuc n) h = omega arith

pub i64_of_bits-IsI64 : (v : ℕ) → IsU64 v → IsI64 (i64_of_bits v)
unfolding i64_of_bits
i64_of_bits-IsI64 v h = ground arith
