-- ===== src/Serve/Caps.antt =====
-- The capabilities of src/core/protocol.rs as bits of a byte, and `SERVER_CAPS` of
-- src/commands/serve.rs.
use bcmr.Prelude.{ℕ, zero, suc, ◌+◌, ◌-◌, ◌*◌, ◌/◌, ◌%◌, ◌^◌, ◌<◌, ◌≡◌, arith}
use bcmr.Prelude.{◌&&◌, ◌==◌, if◌then◌else◌}
use bcmr.Prelude.{div_pow}
use bcmr.Compress.{has_cap}

abbrev pub cap_dedup : ℕ
cap_dedup = 0x04

abbrev pub cap_fast : ℕ
cap_fast = 0x08

abbrev pub cap_sync : ℕ
cap_sync = 0x10

abbrev pub cap_direct_tcp : ℕ
cap_direct_tcp = 0x20

abbrev pub cap_aead : ℕ
cap_aead = 0x40

-- `a & b`, of numbers with so many bits.
unfoldable pub bit_and : (bits a b : ℕ) → ℕ
bit_and zero a b = 0
bit_and (suc n) a b = (if a % 2 == 1 && b % 2 == 1 then 1 else 0) + 2 * bit_and n (a / 2) (b / 2)

-- `caps &= !cap`, for a `cap` that is a power of two.
unfoldable pub without_cap : (caps cap : ℕ) → ℕ
without_cap caps cap = if has_cap caps cap then caps - cap else caps

-- A bit of `a & b` is set where it is set in both.
pub has_cap-bit_and :
    (bits j a b : ℕ)
    → j < bits
    → has_cap (bit_and bits a b) (2 ^ j) ≡ has_cap a (2 ^ j) && has_cap b (2 ^ j)
unfolding has_cap bit_and
has_cap-bit_and zero j a b h = absurd (omega arith)
has_cap-bit_and (suc n) zero a b h = ground arith
has_cap-bit_and (suc n) (suc j) a b h =
    let low : ((if a % 2 == 1 && b % 2 == 1 then 1 else 0) + 2 * bit_and n (a / 2) (b / 2)) / 2
        ≡ bit_and n (a / 2) (b / 2) =
      ground arith in
    rw (div_pow (bit_and (suc n) a b) j, div_pow a j, div_pow b j, low)
      (has_cap-bit_and n j (a / 2) (b / 2) (omega (arith, h)))

-- `SERVER_CAPS`
abbrev pub server_caps : ℕ
server_caps = 0x7f
