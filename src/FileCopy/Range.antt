-- ===== src/FileCopy/Range.antt =====
-- The loop of `try_copy_file_range` of src/commands/copy/file_copy.rs.
use bcmr.Prelude.{ℕ, zero, suc, ◌+◌, ◌-◌, ◌*◌, ◌==◌, if◌then◌else◌, Option, none, some}
use bcmr.Prelude.{[], ◌∷◌, length, take, drop}
use Prim.Native.Nat.{min}
use bcmr.Bytes.Word.{Bytes}
use bcmr.Bytes.Write.{write_at}
use bcmr.Errors.{Result, ok, err, io, other}
use bcmr.FileCopy.Calls.{Machine, RangeResult, moved, unsupported, failed}

abbrev pub range_chunk : ℕ
range_chunk = 4 * 1024 * 1024

-- How the loop over the calls ends; `none` where they are not supported.
abbrev pub RangeEnd : Type 0
RangeEnd = Option (Result (Unit {0})) × Bytes

module _ (machine : Machine) (source : Bytes) where
  -- What was moved is written; where nothing was, the loop ends.
  unfoldable pub range_moved : (at : ℕ) (later : ℕ → Bytes → RangeEnd) → Bytes → Bytes → RangeEnd
  range_moved at later [] file = (some (ok tt), file)
  range_moved at later (b ∷ bs) file = later (length (b ∷ bs)) (write_at at (b ∷ bs) file)

  unfoldable pub range_round :
      (at remaining : ℕ) (later : ℕ → Bytes → RangeEnd) → RangeResult → Bytes → RangeEnd
  range_round at remaining later (moved k) file =
      range_moved at later (take (min k (min remaining range_chunk)) (drop at source)) file
  range_round at remaining later unsupported file = (none, file)
  range_round at remaining later failed file = (some (err (io other)), file)

  -- The loop over the calls of `copy_file_range`, of which each moves a byte or ends it.
  unfoldable pub range_loop : (rounds at remaining : ℕ) → Bytes → RangeEnd
  range_loop zero at remaining file = (some (ok tt), file)
  range_loop (suc n) at remaining file =
      let later : ℕ → Bytes → RangeEnd = λ k now. range_loop n (at + k) (remaining - k) now in
      if remaining == 0
      then (some (ok tt), file)
      else range_round at remaining later (machine.range at) file
