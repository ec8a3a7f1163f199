-- ===== src/Serve/Put/Bitmap.antt =====
-- The bits that tell the client which blocks the store does not have.
use bcmr.Prelude.{ℕ, zero, suc, ◌+◌, ◌*◌, ◌/◌, ◌%◌, ◌^◌, ◌≡◌, ◌≢◌, ◌≤◌, ◌<◌, refl, ap, ◌∙◌, arith}
use bcmr.Prelude.{Bool, true, false, not, ◌==◌, List, [], ◌∷◌, length, get_elem?, replicate}
use bcmr.Prelude.{if◌then◌else◌, Bool-cases, inl, inr, div_pow}
use bcmr.Bytes.Word.{Bytes}
use bcmr.Cas.{Cas, has}
use bcmr.Serve.Put.{DedupState, byte_or_zero, is_missing, set_bit, mark_missing}

abbrev bit : (b k : ℕ) → ℕ
bit b k = b / 2 ^ k % 2

bit-same : (k b : ℕ) → bit b k ≡ 0 → bit (b + 2 ^ k) k ≡ 1
bit-same zero b h = omega (arith, h)
bit-same (suc k) b h =
    let half : (b + 2 ^ suc k) / 2 ≡ b / 2 + 2 ^ k = omega arith in
    rw (div_pow (b + 2 ^ suc k) k, half) (bit-same k (b / 2) (rw (div_pow b k) at h))

bit-other : (k j b : ℕ) → k ≢ j → bit b k ≡ 0 → bit (b + 2 ^ k) j ≡ bit b j
bit-other zero zero b d h = absurd (d refl)
bit-other zero (suc j) b d h =
    let half : (b + 2 ^ 0) / 2 ≡ b / 2 = omega (arith, h) in
    rw (div_pow (b + 2 ^ 0) j, div_pow b j, half) refl
bit-other (suc k) zero b d h = omega arith
bit-other (suc k) (suc j) b d h =
    let half : (b + 2 ^ suc k) / 2 ≡ b / 2 + 2 ^ k = omega arith in
    rw (div_pow (b + 2 ^ suc k) j, div_pow b j, half)
      (bit-other k j (b / 2) (λ e. d (ap suc e)) (rw (div_pow b k) at h))

abbrev byte_at : Bytes → ℕ → ℕ
byte_at bits n = byte_or_zero (get_elem? bits n)

abbrev bit_at : Bytes → ℕ → ℕ
bit_at bits i = bit (byte_at bits (i / 8)) (i % 8)

length-set_bit : (n k : ℕ) (bits : Bytes) → length (set_bit n k bits) ≡ length bits
unfolding set_bit
length-set_bit n k [] = refl
length-set_bit zero k (b ∷ bits) = refl
length-set_bit (suc n) k (b ∷ bits) = ap suc (length-set_bit n k bits)

byte_at-same :
    (n k : ℕ) (bits : Bytes)
    → n < length bits
    → bit (byte_at bits n) k ≡ 0
    → byte_at (set_bit n k bits) n ≡ byte_at bits n + 2 ^ k
unfolding set_bit byte_or_zero
byte_at-same n k [] h clear = absurd (omega (arith, h))
byte_at-same zero k (b ∷ bits) h clear =
    let e : (b / 2 ^ k % 2 == 1) ≡ false = ground (arith, clear) in rw e refl
byte_at-same (suc n) k (b ∷ bits) h clear = byte_at-same n k bits (omega (arith, h)) clear

byte_at-other : (n m k : ℕ) (bits : Bytes) → n ≢ m → byte_at (set_bit n k bits) m ≡ byte_at bits m
unfolding set_bit
byte_at-other n m k [] d = refl
byte_at-other zero zero k (b ∷ bits) d = absurd (d refl)
byte_at-other zero (suc m) k (b ∷ bits) d = refl
byte_at-other (suc n) zero k (b ∷ bits) d = refl
byte_at-other (suc n) (suc m) k (b ∷ bits) d = byte_at-other n m k bits (λ e. d (ap suc e))

-- The bits from the `i`-th one on are not set.
abbrev Clear : ℕ → Bytes → Type 0
Clear i bits = (j : ℕ) → i ≤ j → bit_at bits j ≡ 0

bit_at-same :
    (i : ℕ) (bits : Bytes)
    → i < 8 * length bits
    → bit_at bits i ≡ 0
    → bit_at (set_bit (i / 8) (i % 8) bits) i ≡ 1
bit_at-same i bits h clear =
    rw (byte_at-same (i / 8) (i % 8) bits (omega (arith, h)) clear)
      (bit-same (i % 8) (byte_at bits (i / 8)) clear)

bit_at-other :
    (i j : ℕ) (bits : Bytes)
    → i < 8 * length bits
    → bit_at bits i ≡ 0
    → i ≢ j
    → bit_at (set_bit (i / 8) (i % 8) bits) j ≡ bit_at bits j
bit_at-other i j bits h clear d = elim (Bool-cases (i / 8 == j / 8)) [
  | inl here ↦
      let same : i / 8 ≡ j / 8 = ground (arith, here) in
      let apart : i % 8 ≢ j % 8 = λ e. d (omega (arith, same, e)) in
      rw⁻¹ same (
        rw (byte_at-same (i / 8) (i % 8) bits (omega (arith, h)) clear)
          (bit-other (i % 8) (j % 8) (byte_at bits (i / 8)) apart clear))
  | inr there ↦ rw (byte_at-other (i / 8) (j / 8) (i % 8) bits (λ e. ground (arith, there, e))) refl
]

-- One round: the `i`-th bit is set if the block is missing, and no other bit changes.
record Marked (i : ℕ) (missing : Bool) (bits after : Bytes) : Type 0 where
  clear : Clear (suc i) after
  kept : (j : ℕ) → j < i → bit_at after j ≡ bit_at bits j
  here : (bit_at after i == 1) ≡ missing
  size : length after ≡ length bits

round :
    (found : Bool) (i : ℕ) (bits : Bytes)
    → i < 8 * length bits
    → Clear i bits
    → Marked i (not found) bits (if found then bits else set_bit (i / 8) (i % 8) bits)
round true i bits h clear = record {
  clear = λ j later. clear j (omega (arith, later));
  kept = λ j before. refl;
  here = ground (arith, clear i (omega arith));
  size = refl;
}
round false i bits h clear =
    let now = clear i (omega arith) in
    record {
      clear = λ j later.
          bit_at-other i j bits h now (λ e. absurd (omega (arith, e, later)))
          ∙ clear j (omega (arith, later));
      kept = λ j before. bit_at-other i j bits h now (λ e. absurd (omega (arith, e, before)));
      here = ground (arith, bit_at-same i bits h now);
      size = length-set_bit (i / 8) (i % 8) bits;
    }

mark_missing-kept :
    (cas : Cas) (hs : List Bytes) (i : ℕ) (bits : Bytes)
    → i + length hs ≤ 8 * length bits
    → Clear i bits
    → (j : ℕ) → j < i
    → bit_at (mark_missing cas i hs bits) j ≡ bit_at bits j
unfolding mark_missing
mark_missing-kept cas [] i bits h clear j before = refl
mark_missing-kept cas (hash ∷ hs) i bits h clear j before =
    let m = round (has hash cas) i bits (omega (arith, h)) clear in
    mark_missing-kept cas hs (suc i) _ (omega (arith, h, m.size)) m.clear j (omega (arith, before))
    ∙ m.kept j before

-- The bits from the `i`-th one on are set where the store has no block under the hash.
unfoldable pub Marks : Cas → DedupState → ℕ → List Bytes → Type 0
Marks cas d i [] = Unit {0}
Marks cas d i (hash ∷ hs) = (is_missing d i ≡ not (has hash cas)) × Marks cas d (suc i) hs

mark_missing-from :
    (cas : Cas) (hs : List Bytes) (i : ℕ) (bits : Bytes) (d : DedupState)
    → i + length hs ≤ 8 * length bits
    → Clear i bits
    → d.bits ≡ mark_missing cas i hs bits
    → Marks cas d i hs
unfolding mark_missing Marks is_missing
mark_missing-from cas [] i bits d h clear e = tt
mark_missing-from cas (hash ∷ hs) i bits d h clear e =
    let m = round (has hash cas) i bits (omega (arith, h)) clear in
    (
      ap (λ (b : Bytes). bit_at b i == 1) e
          ∙ ap (λ (b : ℕ). b == 1)
              (mark_missing-kept cas hs (suc i) _ (omega (arith, h, m.size)) m.clear i
                (omega arith))
          ∙ m.here,
      mark_missing-from cas hs (suc i) _ d (omega (arith, h, m.size)) m.clear e,
    )

byte_at-replicate : (n m : ℕ) → byte_at (replicate n 0) m ≡ 0
unfolding byte_or_zero
byte_at-replicate zero m = refl
byte_at-replicate (suc n) zero = refl
byte_at-replicate (suc n) (suc m) = byte_at-replicate n m

length-replicate : (n : ℕ) → length {A = ℕ} (replicate n 0) ≡ n
length-replicate zero = refl
length-replicate (suc n) = ap suc (length-replicate n)

zero_bit : (k : ℕ) → bit 0 k ≡ 0
zero_bit zero = omega arith
zero_bit (suc k) = rw (div_pow 0 k) (zero_bit k)

pub mark_missing-Marks :
    (cas : Cas) (hs : List Bytes) (d : DedupState)
    → d.bits ≡ mark_missing cas 0 hs (replicate ((length hs + 7) / 8) 0)
    → Marks cas d 0 hs
mark_missing-Marks cas hs d e =
    mark_missing-from cas hs 0 _ d (omega (arith, length-replicate ((length hs + 7) / 8)))
      (λ j _. rw (byte_at-replicate ((length hs + 7) / 8) (j / 8)) (zero_bit (j % 8))) e
