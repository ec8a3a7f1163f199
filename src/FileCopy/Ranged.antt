-- ===== src/FileCopy/Ranged.antt =====
-- What `copy_file_range` leaves where it succeeds.
use bcmr.Prelude.{
  ℕ, zero, suc, ◌+◌, ◌-◌, ◌≡◌, ◌≢◌, ◌≤◌, ◌<◌, refl, sym, ap, ◌∙◌, arith, ◌==◌, ==_iff,
}
use bcmr.Prelude.{Bool-cases, inl, inr, some, [], ◌∷◌, ◌++◌, length, take, drop, append-nil}
use bcmr.Prelude.{length-take_of_le, length-drop}
use Prim.Native.Nat.{min}
use mathlib.Core.Path.{subst}
use bcmr.Bytes.Word.{Bytes}
use bcmr.Bytes.Read.{length-take}
use bcmr.Bytes.Write.{overlay, write_at, write_at-overlay, take_add, take-length, drop_long}
use bcmr.Errors.{BcmrError, ok, err}
use bcmr.FileCopy.Calls.{RangeResult, moved, unsupported, failed, Machine}
use bcmr.FileCopy.Range.{RangeEnd, range_chunk}
use bcmr.FileCopy.Range.{range_moved, range_round, range_loop}

take-take : (k : ℕ) (xs : Bytes) → take (length (take k xs)) xs ≡ take k xs
unfolding take
take-take zero xs = refl
take-take (suc k) [] = refl
take-take (suc k) (x ∷ xs) = ap (λ (ys : Bytes). x ∷ ys) (take-take k xs)

module _ (machine : Machine) (source base : Bytes) (lo : length base ≤ length source)
    (moves : (at : ℕ) → at < length source → machine.range at ≢ moved 0) where
  -- The first `at` bytes are those of the source.
  abbrev so_far : ℕ → Bytes
  so_far at = overlay (take at source) base

  so_far-part :
      (at k : ℕ)
      → at ≤ length source
      → let part = take k (drop at source) in
        write_at at part (so_far at) ≡ so_far (at + length part)
  so_far-part at k h =
      let part = take k (drop at source) in
      let size : length (take at source) ≡ at = length-take_of_le at source h in
      ap (λ (n : ℕ). write_at n part (so_far at)) (sym size)
      ∙ write_at-overlay (take at source) part base
      ∙ ap (λ (c : Bytes). overlay c base)
          (ap (λ (x : Bytes). take at source ++ x) (sym (take-take k (drop at source)))
            ∙ take_add at (length part) source)

  done-source : so_far (length source) ≡ source
  done-source =
      ap (λ (c : Bytes). overlay c base) (take-length source)
      ∙ ap (λ (x : Bytes). source ++ x) (drop_long (length source) base lo)
      ∙ append-nil source

  -- What the rest of the loop does.
  abbrev Goes : ℕ → Type 0
  Goes n =
      (at remaining : ℕ) (f : Bytes)
      → remaining < n
      → at + remaining ≡ length source
      → range_loop machine source n at remaining (so_far at) ≡ (some (ok tt), f)
      → f ≡ source

  moved-source :
      (n at remaining k : ℕ) (part f : Bytes)
      → Goes n
      → part ≡ take (min k (min remaining range_chunk)) (drop at source)
      → 1 ≤ k
      → 1 ≤ remaining
      → remaining ≤ n
      → at + remaining ≡ length source
      → range_moved machine source at
          (λ m now. range_loop machine source n (at + m) (remaining - m) now)
          part
          (so_far at)
        ≡ (some (ok tt), f)
      → f ≡ source
  unfolding range_moved
  moved-source n at remaining k [] f next is some_byte left enough place e =
      let size = ap (λ (c : Bytes). length c) is in
      absurd (
        omega (
          arith,
          size,
          length-take (min k (min remaining range_chunk)) (drop at source),
          length-drop at source,
          some_byte,
          left,
          place,
        ))
  moved-source n at remaining k (b ∷ bs) f next is some_byte left enough place e =
      let part = b ∷ bs in
      let size = ap (λ (c : Bytes). length c) is in
      let bound = length-take (min k (min remaining range_chunk)) (drop at source) in
      let step : write_at at part (so_far at) ≡ so_far (at + length part) =
        subst (λ (p : Bytes). write_at at p (so_far at) ≡ so_far (at + length p)) (sym is)
          (so_far-part at (min k (min remaining range_chunk)) (omega (arith, place))) in
      next (at + length part) (remaining - length part) f (omega (arith, left, enough))
        (omega (arith, size, bound, place))
        (sym (
            ap
              (λ (x : Bytes).
                range_loop machine source n (at + length part) (remaining - length part) x)
              step)
          ∙ e)

  round-source :
      (r : RangeResult) (n at remaining : ℕ) (f : Bytes)
      → Goes n
      → r ≢ moved 0
      → 1 ≤ remaining
      → remaining ≤ n
      → at + remaining ≡ length source
      → range_round machine source at remaining
          (λ m now. range_loop machine source n (at + m) (remaining - m) now)
          r
          (so_far at)
        ≡ (some (ok tt), f)
      → f ≡ source
  unfolding range_round
  round-source (moved zero) n at remaining f next some_byte left enough place e =
      absurd (some_byte refl)
  round-source (moved (suc k)) n at remaining f next some_byte left enough place e =
      moved-source n at remaining (suc k) _ f next refl (omega arith) left enough place e
  round-source unsupported n at remaining f next some_byte left enough place e = cc
  round-source failed n at remaining f next some_byte left enough place e = cc

  pub range_loop-source : (n : ℕ) → Goes n
  unfolding range_loop
  range_loop-source zero at remaining f enough place e = absurd (omega (arith, enough))
  range_loop-source (suc n) at remaining f enough place e = elim (Bool-cases (remaining == 0)) [
    | inl full ↦
        let ended : ◌≡◌ {A = RangeEnd} (some (ok tt), so_far at) (some (ok tt), f) = rw full at e in
        let here : at ≡ length source = omega (arith, (==_iff remaining 0).0 full, place) in
        sym (ap (λ (p : RangeEnd). p.1) ended) ∙ ap so_far here ∙ done-source
    | inr more ↦
        let left : 1 ≤ remaining = ground (arith, more) in
        round-source (machine.range at) n at remaining f (range_loop-source n)
          (moves at (omega (arith, left, place))) left (omega (arith, enough)) place (rw more at e)
  ]

module _ (machine : Machine) (source : Bytes) (e : BcmrError) (f : Bytes) where
  moved_fails :
      (at : ℕ) (later : ℕ → Bytes → RangeEnd) (part file : Bytes)
      → ((m : ℕ) (now : Bytes) → later m now ≢ (some (err e), f))
      → range_moved machine source at later part file ≢ (some (err e), f)
  unfolding range_moved
  moved_fails at later [] file rest r = cc
  moved_fails at later (b ∷ bs) file rest r = rest (length (b ∷ bs)) (write_at at (b ∷ bs) file) r

  round_fails :
      (o : RangeResult) (at remaining : ℕ) (later : ℕ → Bytes → RangeEnd) (file : Bytes)
      → o ≢ failed
      → ((m : ℕ) (now : Bytes) → later m now ≢ (some (err e), f))
      → range_round machine source at remaining later o file ≢ (some (err e), f)
  unfolding range_round
  round_fails (moved k) at remaining later file fine rest r = moved_fails at later _ file rest r
  round_fails unsupported at remaining later file fine rest r = cc
  round_fails failed at remaining later file fine rest r = fine refl

  -- The loop fails only where a call does.
  pub range_loop-fails :
      ((at : ℕ) → machine.range at ≢ failed)
      → (n at remaining : ℕ) (file : Bytes)
      → range_loop machine source n at remaining file ≢ (some (err e), f)
  unfolding range_loop
  range_loop-fails fine zero at remaining file r = cc
  range_loop-fails fine (suc n) at remaining file r = elim (Bool-cases (remaining == 0)) [
    | inl full ↦
        let ended : ◌≡◌ {A = RangeEnd} (some (ok tt), file) (some (err e), f) = rw full at r in cc
    | inr more ↦
        round_fails (machine.range at) at remaining _ file (fine at)
          (λ m now. range_loop-fails fine n (at + m) (remaining - m) now) (rw more at r)
  ]
