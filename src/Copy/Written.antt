-- ===== src/Copy/Written.antt =====
-- A copy that looks for no holes: each part is written where the last one ended.
use bcmr.Prelude.{ℕ, ◌+◌, ◌≡◌, refl, ◌∙◌, arith, ◌++◌, append_assoc}
use bcmr.Prelude.{length, length-append, drop, not, ltb}
use bcmr.Bytes.Word.{Bytes}
use bcmr.Bytes.Write.{write_at, write_at-append, drop-drop}
use bcmr.Bytes.Digest.{Blake3}
use bcmr.Errors.Runs.{Runs, Runs-ok, Runs-if}
use bcmr.Copy.{never, CopyState, Faults, written, write_all, place, last_hole}
use bcmr.Copy.Loop.{Same, IsCalm}

-- The destination was `file`, and has `content` at its beginning now.
pub record IsWritten (file content : Bytes) (st : CopyState) : Type 0 where
  pub target : st.file ≡ content ++ drop (length content) file
  pub position : st.position ≡ length content
  pub pending_hole : st.pending_hole ≡ 0

pub IsWritten-Same :
    (file content : Bytes) (s t : CopyState)
    → Same s t
    → IsWritten file content s
    → IsWritten file content t
IsWritten-Same file content s t same h = record {
  target = same.file ∙ h.target;
  position = same.position ∙ h.position;
  pending_hole = same.pending_hole ∙ h.pending_hole;
}

-- One more part is written.
pub IsWritten-append :
    (file content part : Bytes) (st : CopyState)
    → IsWritten file content st
    → IsWritten file (content ++ part) (record st {
      file = write_at st.position part st.file;
      position = st.position + length part;
    })
IsWritten-append file content part st h = record {
  target =
      rw
        (
          h.target,
          h.position,
          write_at-append content part (drop (length content) file),
          drop-drop (length part) (length content) file,
          length-append content part,
          append_assoc,
        )
        refl;
  position = omega (arith, h.position, length-append content part);
  pending_hole = h.pending_hole;
}

module _ (blake3 : Blake3) (block_size detect_size : ℕ) (faults : Faults) (calm : IsCalm faults)
    (file : Bytes) where
  pub place-IsWritten :
      (content part : Bytes) (st : CopyState)
      → IsWritten file content st
      → Runs
          (place blake3 block_size detect_size faults never part st)
          (IsWritten file (content ++ part))
  unfolding place write_all written
  place-IsWritten content part st h =
      rw (calm.whole st.position)
        (Runs-ok tt _ (IsWritten file (content ++ part)) (IsWritten-append file content part st h))

  pub last_hole-IsWritten :
      (content : Bytes) (st : CopyState)
      → IsWritten file content st
      → Runs
          (last_hole blake3 block_size detect_size faults st)
          (λ t. t.file ≡ content ++ drop (length content) file)
  unfolding last_hole
  last_hole-IsWritten content st h =
      let Final : CopyState → Type 0 = λ t. t.file ≡ content ++ drop (length content) file in
      Runs-if (not (ltb 0 st.pending_hole)) _ _ st Final (λ _. Runs-ok tt st Final h.target)
        (λ e. absurd (ground (arith, h.pending_hole, e)))
