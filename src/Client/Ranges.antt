-- ===== src/Client/Ranges.antt =====
-- How the pool of src/core/serve_client/pool.rs divides a file, and many files, among its clients.
use bcmr.Prelude.{ℕ, zero, suc, ◌+◌, ◌-◌, ◌*◌, ◌/◌, ◌%◌, ◌≤◌, ◌≡◌, refl, ap, arith}
use bcmr.Prelude.{List, [], ◌∷◌, length, ltb, Bool-cases, inl, inr, ltb→le, suc_mul, if◌then◌else◌}
use Prim.Native.Nat.{min}
use native.Mathlib.Nat.{div-add-mod, mod-lt, mul-suc}

-- `total.div_ceil(n)`
unfoldable pub div_ceil : ℕ → ℕ → ℕ
div_ceil total n = if ltb 0 (total % n) then total / n + 1 else total / n

-- The rounds of the loop.
unfoldable pub range_loop : (n chunk total offset : ℕ) → List (ℕ × ℕ)
range_loop zero chunk total offset = []
range_loop (suc n) chunk total offset =
    let size = min chunk (total - offset) in
    (offset, size) ∷ range_loop n chunk total (offset + size)

unfoldable pub divide_ranges : (total n : ℕ) → List (ℕ × ℕ)
divide_ranges total n = range_loop n (div_ceil total n) total 0

-- Each range begins where the one before ends; the last one ends at `end`.
unfoldable pub Contiguous : (start end : ℕ) → List (ℕ × ℕ) → Type 0
Contiguous start end [] = start ≡ end
Contiguous start end ((offset, size) ∷ ranges) =
    (offset ≡ start) × Contiguous (start + size) end ranges

enough : (n total : ℕ) → 1 ≤ n → total ≤ n * div_ceil total n
unfolding div_ceil
enough n total h = elim (Bool-cases (ltb 0 (total % n))) [
  | inl more ↦ rw more (omega (arith, div-add-mod total n, mod-lt total h, mul-suc n (total / n)))
  | inr exact ↦ rw exact (omega (arith, div-add-mod total n, ltb→le _ _ exact))
]

range_loop-Contiguous :
    (n chunk total offset : ℕ)
    → offset ≤ total
    → total ≤ offset + n * chunk
    → Contiguous offset total (range_loop n chunk total offset)
unfolding range_loop Contiguous
range_loop-Contiguous zero chunk total offset lo hi = omega (arith, lo, hi)
range_loop-Contiguous (suc n) chunk total offset lo hi = (
  refl,
  range_loop-Contiguous n chunk total (offset + min chunk (total - offset)) (omega (arith, lo))
      (omega (arith, lo, hi, suc_mul n chunk)),
)

length-range_loop : (n chunk total offset : ℕ) → length (range_loop n chunk total offset) ≡ n
unfolding range_loop
length-range_loop zero chunk total offset = refl
length-range_loop (suc n) chunk total offset =
    ap suc (length-range_loop n chunk total (offset + min chunk (total - offset)))

-- There are as many ranges as clients; the first one begins at 0, each one where the one before
-- ends, and the last one ends at the end of the file.
pub divide_ranges-Contiguous :
    (total n : ℕ)
    → 1 ≤ n
    → Contiguous 0 total (divide_ranges total n) × (length (divide_ranges total n) ≡ n)
unfolding divide_ranges
divide_ranges-Contiguous total n h = (
  range_loop-Contiguous n (div_ceil total n) total 0 (omega arith)
      (omega (arith, enough n total h)),
  length-range_loop n (div_ceil total n) total 0,
)
