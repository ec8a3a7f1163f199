-- ===== src/Copy/Calmed.antt =====
-- A copy that succeeds is one in which nothing has failed.
use bcmr.Prelude.{ℕ, zero, suc, ◌≡◌, refl, true, false, ltb, leb, not, ◌&&◌, if◌then◌else◌}
use bcmr.Prelude.{Bool, Option, none, some, List, [], ◌∷◌, length, take, drop}
use bcmr.Bytes.Word.{Bytes}
use bcmr.Bytes.Digest.{Blake3}
use bcmr.Errors.{BcmrError, ok, pure, raise, io, other, ◌>>◌}
use bcmr.Errors.Follows.{Follows, Follows-refl, Follows-bind, Follows-if}
use bcmr.Session.{Session}
use bcmr.Copy.{SparseMode, never, always, auto, CopyState, Faults, all_zero, written, write_all}
use bcmr.Copy.{skip_hole, skipped, fill, widen, place_piece, place_pieces, place, take_in, callback}
use bcmr.Copy.{record_block, save_synced, sync_and_save, restart_count, checkpoint, end_block}
use bcmr.Copy.{copy_part, copy_loop, last_block, last_hole, grow, conclude, begin, streaming_copy}
use bcmr.Copy.{
  checkpoint_interval_blocks, with_block, restarted, final_hash, save_hashed, hasher_for,
}
use bcmr.Copy.Loop.{IsCalm}

unfoldable pub calmed : Faults → Faults
calmed faults = record { now = faults.now; cut = λ _. none; syncs = λ _. true; sets_len = true }

pub calmed-IsCalm : (faults : Faults) → IsCalm (calmed faults)
unfolding calmed
calmed-IsCalm faults = record { whole = λ _. refl; syncs = λ _. refl; sets_len = refl }

module _ (blake3 : Blake3) (block_size detect_size : ℕ) (faults : Faults) where
  written-Follows :
      (part : Bytes) (o : Option ℕ) (s : CopyState)
      → Follows
          (written blake3 block_size detect_size faults part o)
          (written blake3 block_size detect_size (calmed faults) part none)
          s
  unfolding Follows written
  written-Follows part none s a t e = e
  written-Follows part (some n) s a t e = cc

  write_all-Follows :
      (part : Bytes) (s : CopyState)
      → Follows
          (write_all blake3 block_size detect_size faults part)
          (write_all blake3 block_size detect_size (calmed faults) part)
          s
  unfolding write_all calmed Follows
  write_all-Follows part s = written-Follows part (faults.cut s.position) s

  fill-Follows :
      (part : Bytes) (s : CopyState)
      → Follows
          (fill blake3 block_size detect_size faults part)
          (fill blake3 block_size detect_size (calmed faults) part)
          s
  unfolding fill skip_hole skipped Follows
  fill-Follows part s =
      let skip = skip_hole blake3 block_size detect_size faults in
      let write = write_all blake3 block_size detect_size faults part in
      let write' = write_all blake3 block_size detect_size (calmed faults) part in
      Follows-if (ltb 0 s.pending_hole) (skip >> write) write (skip >> write') write' s
        (Follows-bind skip skip (λ _. write) (λ _. write') s (Follows-refl skip s)
          (λ _ t. write_all-Follows part t))
        (write_all-Follows part s)

  place_piece-Follows :
      (min_block : ℕ) (piece : Bytes) (s : CopyState)
      → Follows
          (place_piece blake3 block_size detect_size faults min_block piece)
          (place_piece blake3 block_size detect_size (calmed faults) min_block piece)
          s
  unfolding place_piece widen Follows
  place_piece-Follows min_block piece s =
      let hole = widen blake3 block_size detect_size faults (length piece) in
      Follows-if (leb min_block (length piece) && all_zero piece) hole
        (fill blake3 block_size detect_size faults piece) hole
        (fill blake3 block_size detect_size (calmed faults) piece) s (λ a t e. e)
        (fill-Follows piece s)

  place_pieces-Follows :
      (fuel min_block : ℕ) (part : Bytes) (s : CopyState)
      → Follows
          (place_pieces blake3 block_size detect_size faults fuel min_block part)
          (place_pieces blake3 block_size detect_size (calmed faults) fuel min_block part)
          s
  unfolding place_pieces
  place_pieces-Follows fuel min_block [] s = Follows-refl (pure tt) s
  place_pieces-Follows zero min_block (b ∷ bs) s = Follows-refl (pure tt) s
  place_pieces-Follows (suc fuel) min_block (b ∷ bs) s =
      Follows-bind _ _ _ _ s (place_piece-Follows min_block (take detect_size (b ∷ bs)) s)
        (λ _ t. place_pieces-Follows fuel min_block (drop detect_size (b ∷ bs)) t)

  place-Follows :
      (mode : SparseMode) (part : Bytes) (s : CopyState)
      → Follows
          (place blake3 block_size detect_size faults mode part)
          (place blake3 block_size detect_size (calmed faults) mode part)
          s
  unfolding place
  place-Follows never part s = write_all-Follows part s
  place-Follows always part s = place_pieces-Follows (length part) 1 part s
  place-Follows auto part s = place_pieces-Follows (length part) detect_size part s

  save_synced-Follows :
      (b : Bool) (x : Session) (s : CopyState)
      → Follows
          (if b then save_synced blake3 block_size detect_size faults x else raise (io other))
          (save_synced blake3 block_size detect_size (calmed faults) x)
          s
  unfolding Follows save_synced
  save_synced-Follows true x s a t e = e
  save_synced-Follows false x s a t e = cc

  sync_and_save-Follows :
      (session : Option Session) (s : CopyState)
      → Follows
          (sync_and_save blake3 block_size detect_size faults session)
          (sync_and_save blake3 block_size detect_size (calmed faults) session)
          s
  unfolding sync_and_save calmed Follows
  sync_and_save-Follows none s = λ a t e. e
  sync_and_save-Follows (some x) s = save_synced-Follows (faults.syncs s.file) x s

  checkpoint-Follows :
      (s : CopyState)
      → Follows
          (checkpoint blake3 block_size detect_size faults)
          (checkpoint blake3 block_size detect_size (calmed faults))
          s
  unfolding checkpoint restart_count Follows
  checkpoint-Follows s =
      let restart = restart_count blake3 block_size detect_size faults in
      let save = sync_and_save blake3 block_size detect_size faults s.session in
      let save' = sync_and_save blake3 block_size detect_size (calmed faults) s.session in
      Follows-if (leb checkpoint_interval_blocks s.blocks_since_checkpoint) (save >> restart)
        (pure tt) (save' >> restart) (pure tt) s
        (Follows-bind save save' (λ _. restart) (λ _. restart) s (sync_and_save-Follows s.session s)
          (λ _ t a u e. e))
        (λ a t e. e)

  end_block-Follows :
      (s : CopyState)
      → Follows
          (end_block blake3 block_size detect_size faults)
          (end_block blake3 block_size detect_size (calmed faults))
          s
  unfolding end_block record_block with_block restarted calmed Follows
  end_block-Follows s =
      let block = record_block blake3 block_size detect_size faults in
      let point = checkpoint blake3 block_size detect_size faults in
      let point' = checkpoint blake3 block_size detect_size (calmed faults) in
      Follows-if (leb block_size s.bytes_in_block) (block >> point) (pure tt) (block >> point')
        (pure tt) s
        (Follows-bind block block (λ _. point) (λ _. point') s (λ a t e. e)
          (λ _ t. checkpoint-Follows t))
        (λ a t e. e)

  copy_part-Follows :
      (mode : SparseMode) (part : Bytes) (s : CopyState)
      → Follows
          (copy_part blake3 block_size detect_size faults mode part)
          (copy_part blake3 block_size detect_size (calmed faults) mode part)
          s
  unfolding copy_part take_in callback
  copy_part-Follows mode part s = Follows-bind _ _ _ _ s (Follows-refl _ s) (λ _ t.
      Follows-bind _ _ _ _ t (place-Follows mode part t)
        (λ _ u. Follows-bind _ _ _ _ u (Follows-refl _ u) (λ _ v. end_block-Follows v)))

  copy_loop-Follows :
      (mode : SparseMode) (ending : Option BcmrError) (parts : List Bytes) (s : CopyState)
      → Follows
          (copy_loop blake3 block_size detect_size faults mode ending parts)
          (copy_loop blake3 block_size detect_size (calmed faults) mode ending parts)
          s
  unfolding copy_loop
  copy_loop-Follows mode none [] s = Follows-refl _ s
  copy_loop-Follows mode (some x) [] s = Follows-refl _ s
  copy_loop-Follows mode ending (part ∷ parts) s =
      Follows-bind _ _ _ _ s (copy_part-Follows mode part s)
        (λ _ t. copy_loop-Follows mode ending parts t)

  last_hole-Follows :
      (s : CopyState)
      → Follows
          (last_hole blake3 block_size detect_size faults)
          (last_hole blake3 block_size detect_size (calmed faults))
          s
  unfolding last_hole grow Follows calmed
  last_hole-Follows s = choose (not (ltb 0 s.pending_hole)) faults.sets_len s
    where
      choose :
          (b c : Bool) (s : CopyState) (a : Unit {0}) (t : CopyState)
          → (if b
                then pure tt
                else if c
                then grow blake3 block_size detect_size faults
                else raise (io other))
              s
            ≡ (ok a, t)
          → (if b
                then pure tt
                else if true
                then grow blake3 block_size detect_size faults
                else raise (io other))
              s
            ≡ (ok a, t)
      choose true c s a t e = e
      choose false true s a t e = e
      choose false false s a t e = cc

  last_block-Follows :
      (s : CopyState)
      → Follows
          (last_block blake3 block_size detect_size faults)
          (last_block blake3 block_size detect_size (calmed faults))
          s
  unfolding last_block with_block calmed Follows
  last_block-Follows s a t e = e

  conclude-Follows :
      (start_offset : ℕ) (s : CopyState)
      → Follows
          (conclude blake3 block_size detect_size faults start_offset)
          (conclude blake3 block_size detect_size (calmed faults) start_offset)
          s
  unfolding conclude final_hash save_hashed Follows
  conclude-Follows zero s a t e = e
  conclude-Follows (suc n) s a t e = e

  whole :
      (mode : SparseMode) (start_offset : ℕ) (ending : Option BcmrError) (parts : List Bytes)
      (s : CopyState)
      → Follows
          (do
            copy_loop blake3 block_size detect_size faults mode ending parts
            last_block blake3 block_size detect_size faults
            last_hole blake3 block_size detect_size faults
            conclude blake3 block_size detect_size faults start_offset)
          (do
            copy_loop blake3 block_size detect_size (calmed faults) mode ending parts
            last_block blake3 block_size detect_size (calmed faults)
            last_hole blake3 block_size detect_size (calmed faults)
            conclude blake3 block_size detect_size (calmed faults) start_offset)
          s
  whole mode start_offset ending parts s =
      Follows-bind _ _ _ _ s (copy_loop-Follows mode ending parts s) (λ _ t.
        Follows-bind _ _ _ _ t (last_block-Follows t) (λ _ u.
          Follows-bind _ _ _ _ u (last_hole-Follows u) (λ _ v. conclude-Follows start_offset v)))

  -- A copy that succeeds does the same where nothing fails.
  pub streaming_copy-calmed :
      (mode : SparseMode) (start_offset : ℕ) (need_src_hash : Bool) (session : Option Session)
      (parts : List Bytes) (ending : Option BcmrError) (file : Bytes) (h : Option Bytes)
      (t : CopyState)
      → streaming_copy blake3 block_size detect_size faults mode start_offset need_src_hash session
          parts ending file
        ≡ (ok h, t)
      → streaming_copy blake3 block_size detect_size
          (calmed faults)
          mode
          start_offset
          need_src_hash
          session
          parts
          ending
          file
        ≡ (ok h, t)
  unfolding streaming_copy Follows begin hasher_for
  streaming_copy-calmed mode start_offset need_src_hash session parts ending file h t =
      whole mode start_offset ending parts _ h t
