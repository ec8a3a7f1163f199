-- ===== src/Copy/Tracked.antt =====
-- The loop over blocks that are read whole and written in turn: the session has their digests, and
-- what was saved can be resumed.
use bcmr.Prelude.{ℕ, ◌+◌, ◌*◌, ◌^◌, ◌≡◌, ◌<◌, refl, sym, arith}
use bcmr.Prelude.{Option, some, List, [], ◌∷◌, ◌++◌, ◌⊎◌, inr}
use bcmr.Prelude.{length, length-append, drop, All, All-append, leb, leb→lt}
use mathlib.Core.Path.{subst}
use bcmr.Bytes.Word.{Bytes}
use bcmr.Bytes.Digest.{Blake3}
use bcmr.Errors.Runs.{Runs, Runs-ok, Runs-bind, Runs-if}
use bcmr.Session.{Session, add_block}
use bcmr.Copy.{
  never, Save, CopyState, Faults, written, write_all, place, take_in, updated, callback,
}
use bcmr.Copy.{with_block, restarted, record_block, save_synced, sync_and_save, restart_count}
use bcmr.Copy.{checkpoint, end_block, copy_part}
use bcmr.Copy.{checkpoint_interval_blocks}
use bcmr.Copy.Loop.{IsCalm}
use bcmr.Copy.Written.{IsWritten, IsWritten-Same, IsWritten-append}
use bcmr.Copy.Checkpoint.{IsResumable, last_block-IsVerified, resumes}

-- The last session that was saved has `base` blocks; before the first one, `base` is what the copy
-- started with.
abbrev pub LastSave : (kept base : ℕ) → List Save → Type 0
LastSave kept base saves =
    (base ≡ kept)
    ⊎ ((earlier : List Save) × (e : Save) × (saves ≡ earlier ++ (e ∷ []))
        × (length e.session.block_hashes ≡ base))

module _ (blake3 : Blake3) (block_size detect_size : ℕ) (faults : Faults) (calm : IsCalm faults)
    (room : block_size < 2 ^ 63) (file : Bytes) (kept : ℕ) where
  -- `content` was written, and the session has the `hashes`. What was read of the next block is
  -- `partial`; the blocks since the last save are fewer than `limit`.
  pub record IsTracked (content : Bytes) (hashes : List Bytes) (partial : Bytes) (limit : ℕ)
      (st : CopyState) : Type 0 where
    pub placed : IsWritten file content st
    pub in_block : st.bytes_in_block ≡ length partial
    pub hasher : st.block_hashed ≡ some partial
    pub current : Session
    pub session : st.session ≡ some current
    pub recorded : current.block_hashes ≡ hashes
    pub resumable : All (IsResumable blake3 block_size) st.saves
    pub base : ℕ
    pub since : length hashes ≡ base + st.blocks_since_checkpoint
    pub recent : st.blocks_since_checkpoint < limit
    pub saved : LastSave kept base st.saves

  take_in-IsTracked :
      (content : Bytes) (hashes : List Bytes) (part : Bytes) (st : CopyState)
      → length part ≡ block_size
      → IsTracked content hashes [] 16 st
      → Runs
          (take_in blake3 block_size detect_size faults part st)
          (IsTracked content hashes part 16)
  unfolding take_in updated
  take_in-IsTracked content hashes part st full h =
      Runs-ok tt _ (IsTracked content hashes part 16) (record {
        placed =
            IsWritten-Same file content st _
              (record { file = refl; position = refl; pending_hole = refl }) h.placed;
        in_block = omega (arith, h.in_block, full, room);
        hasher = rw h.hasher refl;
        current = h.current;
        session = h.session;
        recorded = h.recorded;
        resumable = h.resumable;
        base = h.base;
        since = h.since;
        recent = h.recent;
        saved = h.saved;
      })

  place-IsTracked :
      (content : Bytes) (hashes : List Bytes) (part : Bytes) (st : CopyState)
      → IsTracked content hashes part 16 st
      → Runs
          (place blake3 block_size detect_size faults never part st)
          (IsTracked (content ++ part) hashes part 16)
  unfolding place write_all written
  place-IsTracked content hashes part st h = rw (calm.whole st.position) (
      Runs-ok tt _ (IsTracked (content ++ part) hashes part 16) (record {
        placed = IsWritten-append file content part st h.placed;
        in_block = h.in_block;
        hasher = h.hasher;
        current = h.current;
        session = h.session;
        recorded = h.recorded;
        resumable = h.resumable;
        base = h.base;
        since = h.since;
        recent = h.recent;
        saved = h.saved;
      }))

  record_block-IsTracked :
      (content : Bytes) (hashes : List Bytes) (part : Bytes) (st : CopyState)
      → length part ≡ block_size
      → IsTracked content hashes part 16 st
      → Runs
          (record_block blake3 block_size detect_size faults st)
          (IsTracked content (hashes ++ (blake3.hash part ∷ [])) [] 17)
  unfolding record_block with_block restarted add_block
  record_block-IsTracked content hashes part st full h =
      let now = faults.now (length h.current.block_hashes) in
      Runs-ok tt _ (IsTracked content (hashes ++ (blake3.hash part ∷ [])) [] 17) (record {
        placed =
            IsWritten-Same file content st _
              (record { file = refl; position = refl; pending_hole = refl }) h.placed;
        in_block = omega (arith, h.in_block, full);
        hasher = rw (h.hasher, h.session) refl;
        current = add_block now (blake3.hash part) block_size h.current;
        session = rw (h.hasher, h.session) refl;
        recorded = rw h.recorded refl;
        resumable = h.resumable;
        base = h.base;
        since = omega (arith, h.since, length-append hashes (blake3.hash part ∷ []));
        recent = omega (arith, h.recent);
        saved = h.saved;
      })

  -- The session that a checkpoint saves.
  saved-IsResumable :
      (content : Bytes) (hashes : List Bytes) (part : Bytes) (st : CopyState) (s : Session)
      → length content ≡ length hashes * block_size
      → length part ≡ block_size
      → IsWritten file (content ++ part) st
      → s.block_hashes ≡ hashes ++ (blake3.hash part ∷ [])
      → IsResumable blake3 block_size (record { synced = some st.file; session = s })
  unfolding IsResumable
  saved-IsResumable content hashes part st s aligned full placed recorded =
      let rest = drop (length (content ++ part)) file in
      let size = length-append hashes (blake3.hash part ∷ []) in
      (
        st.file,
        refl,
        resumes blake3 block_size st.file s (length hashes) (rw recorded (omega (arith, size))) (
            rw (placed.target, recorded)
              (last_block-IsVerified blake3 block_size content part rest hashes aligned full)),
      )

  module _ (content : Bytes) (hashes : List Bytes) (part : Bytes)
      (aligned : length content ≡ length hashes * block_size)
      (full : length part ≡ block_size) where
    abbrev pub Ended : ℕ → CopyState → Type 0
    Ended limit = IsTracked (content ++ part) (hashes ++ (blake3.hash part ∷ [])) [] limit

    abbrev Restarted : CopyState → Type 0
    Restarted t = Ended 16 (record t { blocks_since_checkpoint = 0 })

    save_synced-IsTracked :
        (st : CopyState) (h : Ended 17 st)
        → Restarted (save_synced blake3 block_size detect_size faults h.current st).1
    unfolding save_synced
    save_synced-IsTracked st h =
        let save : Save = record { synced = some st.file; session = h.current } in
        record {
          placed =
              IsWritten-Same file (content ++ part) st _
                (record { file = refl; position = refl; pending_hole = refl }) h.placed;
          in_block = h.in_block;
          hasher = h.hasher;
          current = h.current;
          session = h.session;
          recorded = h.recorded;
          resumable = All-append (IsResumable blake3 block_size) st.saves (save ∷ []) h.resumable (
            saved-IsResumable content hashes part st h.current aligned full h.placed h.recorded,
            tt,
          );
          base = length (hashes ++ (blake3.hash part ∷ []));
          since = omega arith;
          recent = omega arith;
          saved = inr (st.saves, save, refl, rw h.recorded refl);
        }

    checkpoint-IsTracked :
        (st : CopyState)
        → Ended 17 st
        → Runs (checkpoint blake3 block_size detect_size faults st) (Ended 16)
    unfolding checkpoint sync_and_save save_synced restart_count
    checkpoint-IsTracked st h =
        Runs-if (leb checkpoint_interval_blocks st.blocks_since_checkpoint) _ _ st (Ended 16)
          (λ _.
            Runs-bind _ _ st Restarted (Ended 16)
              (subst
                (λ (x : Option Session).
                  Runs (sync_and_save blake3 block_size detect_size faults x st) Restarted)
                (sym h.session)
                (Runs-if (faults.syncs st.file) _ _ st Restarted
                  (λ _. Runs-ok tt _ Restarted (save_synced-IsTracked st h))
                  (λ e. absurd (cc (calm.syncs st.file)))))
              (λ _ t ht. Runs-ok tt _ (Ended 16) ht))
          (λ early. Runs-ok tt st (Ended 16) (record {
            placed = h.placed;
            in_block = h.in_block;
            hasher = h.hasher;
            current = h.current;
            session = h.session;
            recorded = h.recorded;
            resumable = h.resumable;
            base = h.base;
            since = h.since;
            recent = leb→lt _ _ early;
            saved = h.saved;
          }))

    end_block-IsTracked :
        (st : CopyState)
        → IsTracked (content ++ part) hashes part 16 st
        → Runs (end_block blake3 block_size detect_size faults st) (Ended 16)
    unfolding end_block
    end_block-IsTracked st h =
        Runs-if (leb block_size st.bytes_in_block) _ _ st (Ended 16)
          (λ _.
            Runs-bind _ _ st (Ended 17) (Ended 16)
              (record_block-IsTracked (content ++ part) hashes part st full h)
              (λ _ t ht. checkpoint-IsTracked t ht))
          (λ short. absurd (omega (arith, leb→lt _ _ short, h.in_block, full)))

    pub copy_part-IsTracked :
        (st : CopyState)
        → IsTracked content hashes [] 16 st
        → Runs (copy_part blake3 block_size detect_size faults never part st) (Ended 16)
    unfolding copy_part callback
    copy_part-IsTracked st h =
        let Grown = IsTracked (content ++ part) hashes part 16 in
        Runs-bind _ _ st (IsTracked content hashes part 16) (Ended 16)
          (take_in-IsTracked content hashes part st full h)
          (λ _ t ht.
            Runs-bind _ _ t Grown (Ended 16) (place-IsTracked content hashes part t ht) (λ _ u hu.
              Runs-bind _ _ u Grown (Ended 16)
                (Runs-ok tt _ Grown (record {
                  placed =
                      IsWritten-Same file (content ++ part) u _
                        (record { file = refl; position = refl; pending_hole = refl }) hu.placed;
                  in_block = hu.in_block;
                  hasher = hu.hasher;
                  current = hu.current;
                  session = hu.session;
                  recorded = hu.recorded;
                  resumable = hu.resumable;
                  base = hu.base;
                  since = hu.since;
                  recent = hu.recent;
                  saved = hu.saved;
                }))
                (λ _ v hv. end_block-IsTracked v hv)))
