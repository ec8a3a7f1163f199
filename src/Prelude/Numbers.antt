-- ===== src/Prelude/Numbers.antt =====
-- Products and quotients that the arithmetic tactics do not know.
use Prim.Native.Nat.{ℕ, suc, ◌+◌, ◌*◌, ◌/◌, ◌^◌}
use mathlib.Core.Path.{◌≡◌, ap, sym, ◌∙◌}
use native.Mathlib.Nat.{div-div-eq-div-mul}
use native.Mathlib.Omega.{arith}

pub suc_mul : (n k : ℕ) → suc n * k ≡ n * k + k
suc_mul n k = grind arith

pub div_pow : (n j : ℕ) → n / 2 ^ suc j ≡ n / 2 / 2 ^ j
div_pow n j =
    let e : 2 ^ suc j ≡ 2 * 2 ^ j = omega arith in
    ap (λ (k : ℕ). n / k) e ∙ sym (div-div-eq-div-mul n 2 (2 ^ j))
