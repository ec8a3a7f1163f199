-- ===== src/Copy/Loop.antt =====
-- The loop, for a property of the destination that one round keeps: what the round does beside its
-- write does not concern the destination.
use bcmr.Prelude.{ℕ, ◌+◌, ◌≡◌, ◌≤◌, refl, sym, ◌∙◌, arith, true, none, some, List, [], ◌∷◌, ◌++◌}
use bcmr.Prelude.{Option, append_assoc, append-nil, leb, length, length-append, concat}
use mathlib.Core.Path.{subst}
use bcmr.Bytes.Word.{Bytes}
use bcmr.Bytes.Digest.{Blake3}
use bcmr.Errors.Runs.{Runs, Runs-ok, Runs-bind, Runs-if, Runs-imp}
use bcmr.Session.{Session}
use bcmr.Copy.{SparseMode, CopyState, Faults, place, take_in, callback, record_block}
use bcmr.Copy.{sync_and_save, restart_count, checkpoint, end_block, copy_part, copy_loop}
use bcmr.Copy.{save_synced, checkpoint_interval_blocks}

-- The destination and the hole that is pending are the same.
pub record Same (s t : CopyState) : Type 0 where
  pub file : t.file ≡ s.file
  pub position : t.position ≡ s.position
  pub pending_hole : t.pending_hole ≡ s.pending_hole

Same-refl : (s : CopyState) → Same s s
Same-refl s = record { file = refl; position = refl; pending_hole = refl }

-- Nothing fails.
pub record IsCalm (faults : Faults) : Type 0 where
  pub whole : (position : ℕ) → faults.cut position ≡ none
  pub syncs : (file : Bytes) → faults.syncs file ≡ true
  pub sets_len : faults.sets_len ≡ true

module _ (blake3 : Blake3) (block_size detect_size : ℕ) (faults : Faults)
    (calm : IsCalm faults) where
  sync_and_save-Same :
      (session : Option Session) (s : CopyState)
      → Runs (sync_and_save blake3 block_size detect_size faults session s) (Same s)
  unfolding sync_and_save save_synced
  sync_and_save-Same none s = Runs-ok tt s (Same s) (Same-refl s)
  sync_and_save-Same (some x) s =
      Runs-if (faults.syncs s.file) _ _ s (Same s)
        (λ e. Runs-ok tt _ (Same s) (record { file = refl; position = refl; pending_hole = refl }))
        (λ e. absurd (cc (calm.syncs s.file)))

  checkpoint-Same :
      (s : CopyState) → Runs (checkpoint blake3 block_size detect_size faults s) (Same s)
  unfolding checkpoint restart_count
  checkpoint-Same s =
      Runs-if (leb checkpoint_interval_blocks s.blocks_since_checkpoint) _ _ s (Same s)
        (λ e. Runs-bind _ _ s (Same s) (Same s) (sync_and_save-Same s.session s) (λ _ t same.
          Runs-ok tt _ (Same s) (record {
            file = same.file;
            position = same.position;
            pending_hole = same.pending_hole;
          })))
        (λ e. Runs-ok tt s (Same s) (Same-refl s))

  pub end_block-Same :
      (s : CopyState) → Runs (end_block blake3 block_size detect_size faults s) (Same s)
  unfolding end_block record_block
  end_block-Same s =
      Runs-if (leb block_size s.bytes_in_block) _ _ s (Same s)
        (λ e.
          Runs-bind _ _ s (Same s) (Same s)
            (Runs-ok tt _ (Same s) (record { file = refl; position = refl; pending_hole = refl }))
            (λ _ t same. Runs-imp _ (Same t) (Same s) (checkpoint-Same t) (λ u later. record {
              file = later.file ∙ same.file;
              position = later.position ∙ same.position;
              pending_hole = later.pending_hole ∙ same.pending_hole;
            })))
        (λ e. Runs-ok tt s (Same s) (Same-refl s))

  -- `Holds content` is that the destination has taken `content` in.
  module _ (mode : SparseMode) (limit : ℕ) (Holds : Bytes → CopyState → Type 0)
      (keeps : (content : Bytes) (s t : CopyState) → Same s t → Holds content s → Holds content t)
      (places : (content part : Bytes) (s : CopyState)
        → length content + length part ≤ limit
        → Holds content s
        → Runs
            (place blake3 block_size detect_size faults mode part s)
            (Holds (content ++ part))) where
    pub copy_part-Holds :
        (content part : Bytes) (s : CopyState)
        → length content + length part ≤ limit
        → Holds content s
        → Runs
            (copy_part blake3 block_size detect_size faults mode part s)
            (Holds (content ++ part))
    unfolding copy_part take_in callback
    copy_part-Holds content part s fits h =
        let now = Holds (content ++ part) in
        Runs-bind _ _ s (Holds content) now
          (Runs-ok tt _ (Holds content)
            (keeps content s _ (record { file = refl; position = refl; pending_hole = refl }) h))
          (λ _ t ht. Runs-bind _ _ t now now (places content part t fits ht) (λ _ u hu.
            Runs-bind _ _ u now now
              (Runs-ok tt _ now
                (keeps _ u _ (record { file = refl; position = refl; pending_hole = refl }) hu))
              (λ _ v hv.
                Runs-imp _ (Same v) now (end_block-Same v) (λ w same. keeps _ v w same hv))))

    pub copy_loop-Holds :
        (parts : List Bytes) (content : Bytes) (s : CopyState)
        → length content + length (concat parts) ≤ limit
        → Holds content s
        → Runs
            (copy_loop blake3 block_size detect_size faults mode none parts s)
            (Holds (content ++ concat parts))
    unfolding copy_loop concat
    copy_loop-Holds [] content s fits h =
        Runs-ok tt s _ (subst (λ (c : Bytes). Holds c s) (sym (append-nil content)) h)
    copy_loop-Holds (part ∷ parts) content s fits h =
        let split = length-append part (concat parts) in
        let grown = length-append content part in
        Runs-bind _ _ s (Holds (content ++ part)) _
          (copy_part-Holds content part s (omega (arith, split, fits)) h)
          (λ _ t ht.
            subst
              (λ (c : Bytes).
                Runs (copy_loop blake3 block_size detect_size faults mode none parts t) (Holds c))
              (append_assoc content part (concat parts))
              (copy_loop-Holds parts (content ++ part) t (omega (arith, split, grown, fits)) ht))
