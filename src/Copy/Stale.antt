-- ===== src/Copy/Stale.antt =====
-- A hole of the source where the destination has something else: what a copy that looks for holes
-- leaves there.
use bcmr.Prelude.{ℕ, zero, suc, ◌+◌, ◌-◌, ◌^◌, ◌≡◌, ◌≢◌, ◌≤◌, ◌<◌, refl, sym, ap, ◌∙◌, arith, true}
use bcmr.Prelude.{Bool, Option, none, [], ◌∷◌, length, ltb, leb, not, take, drop, ◌&&◌}
use mathlib.Core.Path.{subst}
use bcmr.Bytes.Word.{Bytes}
use bcmr.Bytes.Write.{zeros, length-zeros, take-zeros, drop-zeros, set_len}
use bcmr.Bytes.Digest.{Blake3}
use bcmr.Errors.{ok}
use bcmr.Errors.Runs.{Runs, Runs-ok, Runs-bind, Runs-if, Runs-imp}
use bcmr.Session.{Session}
use bcmr.Copy.{SparseMode, never, always, auto, CopyState, Faults, all_zero, widen, place_piece}
use bcmr.Copy.{place_pieces, place, take_in, callback, copy_part, copy_loop, grow, last_hole, begin}
use bcmr.Copy.{streaming_copy}
use bcmr.Copy.Loop.{Same, IsCalm, end_block-Same}
use bcmr.Copy.Content.{streaming_copy-target}

all_zero-zeros : (n : ℕ) → all_zero (zeros n) ≡ true
unfolding all_zero
all_zero-zeros zero = refl
all_zero-zeros (suc n) = all_zero-zeros n

-- The destination is as it was, and a hole is pending at the place.
record IsHeld (file : Bytes) (at hole : ℕ) (st : CopyState) : Type 0 where
  target : st.file ≡ file
  position : st.position ≡ at
  pending_hole : st.pending_hole ≡ hole

IsHeld-Same :
    (file : Bytes) (at hole : ℕ) (s t : CopyState)
    → Same s t
    → IsHeld file at hole s
    → IsHeld file at hole t
IsHeld-Same file at hole s t same h = record {
  target = same.file ∙ h.target;
  position = same.position ∙ h.position;
  pending_hole = same.pending_hole ∙ h.pending_hole;
}

module _ (blake3 : Blake3) (block_size detect_size : ℕ) (faults : Faults) (calm : IsCalm faults)
    (progress : 1 ≤ detect_size) (room : detect_size < 2 ^ 63) (file : Bytes) (at : ℕ) where
  place_piece-IsHeld :
      (min_block : ℕ) (st : CopyState)
      → min_block ≤ detect_size
      → IsHeld file at 0 st
      → Runs
          (place_piece blake3 block_size detect_size faults min_block (zeros detect_size) st)
          (IsHeld file at detect_size)
  unfolding place_piece widen
  place_piece-IsHeld min_block st small h =
      let size = length-zeros detect_size in
      Runs-if (leb min_block (length (zeros detect_size)) && all_zero (zeros detect_size)) _ _ st
        (IsHeld file at detect_size)
        (λ _. Runs-ok tt _ (IsHeld file at detect_size) (record {
          target = h.target;
          position = h.position;
          pending_hole = omega (arith, h.pending_hole, size, room);
        }))
        (λ e. absurd (ground (arith, e, size, all_zero-zeros detect_size)))

  place_pieces-IsHeld :
      (fuel min_block : ℕ) (st : CopyState) (part : Bytes)
      → part ≡ zeros detect_size
      → length part ≤ fuel
      → min_block ≤ detect_size
      → IsHeld file at 0 st
      → Runs
          (place_pieces blake3 block_size detect_size faults fuel min_block part st)
          (IsHeld file at detect_size)
  unfolding place_pieces
  place_pieces-IsHeld fuel min_block st [] is enough small h =
      let size : 0 ≡ length (zeros detect_size) = ap (λ (p : Bytes). length p) is in
      absurd (omega (arith, size, length-zeros detect_size, progress))
  place_pieces-IsHeld zero min_block st (b ∷ bs) is enough small h = absurd (omega arith)
  place_pieces-IsHeld (suc fuel) min_block st (b ∷ bs) is enough small h =
      let Held = IsHeld file at detect_size in
      let piece : take detect_size (b ∷ bs) ≡ zeros detect_size =
        ap (λ (p : Bytes). take detect_size p) is
        ∙ take-zeros detect_size detect_size (omega arith) in
      let rest : drop detect_size (b ∷ bs) ≡ [] =
        ap (λ (p : Bytes). drop detect_size p) is
        ∙ drop-zeros detect_size detect_size
        ∙ no_zeros (detect_size - detect_size) (omega arith) in
      Runs-bind _ _ st Held Held
        (subst
          (λ (p : Bytes).
            Runs (place_piece blake3 block_size detect_size faults min_block p st) Held)
          (sym piece) (place_piece-IsHeld min_block st small h))
        (λ _ t ht.
          subst
            (λ (p : Bytes).
              Runs (place_pieces blake3 block_size detect_size faults fuel min_block p t) Held)
            (sym rest) (Runs-ok tt t Held ht))
    where
      no_zeros : (n : ℕ) → n ≡ 0 → zeros n ≡ []
      no_zeros n e = ap zeros e

  place-IsHeld :
      (mode : SparseMode) (st : CopyState)
      → mode ≢ never
      → IsHeld file at 0 st
      → Runs
          (place blake3 block_size detect_size faults mode (zeros detect_size) st)
          (IsHeld file at detect_size)
  unfolding place
  place-IsHeld never st sparse h = absurd (sparse refl)
  place-IsHeld always st sparse h =
      place_pieces-IsHeld _ 1 st (zeros detect_size) refl (omega arith) progress h
  place-IsHeld auto st sparse h =
      place_pieces-IsHeld _ detect_size st (zeros detect_size) refl (omega arith) (omega arith) h

  copy_part-IsHeld :
      (mode : SparseMode) (st : CopyState)
      → mode ≢ never
      → IsHeld file at 0 st
      → Runs
          (copy_part blake3 block_size detect_size faults mode (zeros detect_size) st)
          (IsHeld file at detect_size)
  unfolding copy_part take_in callback
  copy_part-IsHeld mode st sparse h =
      let Held = IsHeld file at detect_size in
      Runs-bind _ _ st (IsHeld file at 0) Held
        (Runs-ok tt _ (IsHeld file at 0) (
          IsHeld-Same file at 0 st _ (record { file = refl; position = refl; pending_hole = refl })
            h))
        (λ _ t ht. Runs-bind _ _ t Held Held (place-IsHeld mode t sparse ht) (λ _ u hu.
          Runs-bind _ _ u Held Held
            (Runs-ok tt _ Held (
              IsHeld-Same file at detect_size u _
                (record { file = refl; position = refl; pending_hole = refl }) hu))
            (λ _ v hv.
              Runs-imp _ (Same v) Held (end_block-Same blake3 block_size detect_size faults calm v)
                (λ w same. IsHeld-Same file at detect_size v w same hv))))

  last_hole-IsHeld :
      (st : CopyState)
      → IsHeld file at detect_size st
      → Runs
          (last_hole blake3 block_size detect_size faults st)
          (λ t. t.file ≡ set_len (at + detect_size) file)
  unfolding last_hole grow
  last_hole-IsHeld st h =
      let Final : CopyState → Type 0 = λ t. t.file ≡ set_len (at + detect_size) file in
      Runs-if (not (ltb 0 st.pending_hole)) _ _ st Final
        (λ e. absurd (ground (arith, e, h.pending_hole, progress)))
        (λ _.
          Runs-if faults.sets_len _ _ st Final
            (λ _. Runs-ok tt _ Final (rw (h.target, h.position, h.pending_hole) refl))
            (λ e. absurd (cc calm.sets_len)))

  -- If nothing fails, a copy that looks for holes and reads one piece of zeros, of at least one
  -- byte, succeeds and leaves of the destination what it was, up to the end of that piece, whatever
  -- it has there: it is not what was read where the destination, which a resumed copy does not
  -- truncate, has other bytes behind the place where the copy starts.
  pub streaming_copy-set_len :
      (mode : SparseMode) (need_src_hash : Bool) (session : Option Session)
      → mode ≢ never
      → (hash : Option Bytes) × (t : CopyState) × (streaming_copy blake3 block_size detect_size
            faults mode at need_src_hash session
            (zeros detect_size ∷ [])
            none
            file
          ≡ (ok hash, t))
        × (t.file ≡ set_len (at + detect_size) file)
  unfolding Runs copy_loop begin
  streaming_copy-set_len mode need_src_hash session sparse =
      let Held = IsHeld file at detect_size in
      streaming_copy-target blake3 block_size detect_size faults calm at need_src_hash session mode
        (zeros detect_size ∷ []) file _ Held (IsHeld-Same file at detect_size)
        (Runs-bind _ _ _ Held Held
          (copy_part-IsHeld mode _ sparse
            (record { target = refl; position = refl; pending_hole = refl }))
          (λ _ t ht. Runs-ok tt t Held ht))
        (λ s h. last_hole-IsHeld s h)
