-- ===== src/Copy/Interrupted.antt =====
-- A copy that is interrupted: what it has saved until then.
use bcmr.Prelude.{suc_mul, ℕ, suc, ◌+◌, ◌*◌, ◌^◌, ◌≡◌, ◌≤◌, ◌<◌, refl, sym, ap, ◌∙◌, arith}
use bcmr.Prelude.{Bool, some, List, [], ◌∷◌, ◌++◌, append_assoc, inl}
use bcmr.Prelude.{length, length-append, concat, take, All}
use bcmr.Prelude.{append-nil, take-append-drop, length-take_of_le}
use mathlib.Core.Path.{subst}
use bcmr.Bytes.Word.{Bytes}
use bcmr.Bytes.Write.{take-append}
use bcmr.Bytes.Digest.{Blake3}
use bcmr.Errors.{BcmrError, err, bind_ok, bind_err}
use bcmr.Errors.Runs.{Runs}
use bcmr.Session.{Session}
use bcmr.Copy.{never, CopyState, Faults}
use bcmr.Copy.{copy_loop, begin, hasher_for, streaming_copy}
use bcmr.Copy.{checkpoint_interval_blocks}
use bcmr.Copy.Loop.{IsCalm}
use bcmr.Copy.Checkpoint.{IsResumable}
use bcmr.Copy.Tracked.{LastSave, IsTracked, copy_part-IsTracked}

-- The digests of the blocks.
unfoldable pub block_digests : Blake3 → List Bytes → List Bytes
block_digests blake3 [] = []
block_digests blake3 (part ∷ parts) = blake3.hash part ∷ block_digests blake3 parts

grown_aligned :
    (size : ℕ) (content part : Bytes) (hashes : List Bytes) (h : Bytes)
    → length content ≡ length hashes * size
    → length part ≡ size
    → length (content ++ part) ≡ length (hashes ++ (h ∷ [])) * size
grown_aligned size content part hashes h aligned full =
    let more : length (hashes ++ (h ∷ [])) ≡ suc (length hashes) =
      omega (arith, length-append hashes (h ∷ [])) in
    rw more (omega (arith, length-append content part, suc_mul (length hashes) size, aligned, full))

take_front :
    (content rest file : Bytes) (n : ℕ)
    → file ≡ content ++ rest
    → length content ≡ n
    → take n file ≡ content
take_front content rest file n is size = rw (is, sym size) (take-append content rest)

length-block_digests :
    (blake3 : Blake3) (parts : List Bytes) → length (block_digests blake3 parts) ≡ length parts
unfolding block_digests
length-block_digests blake3 [] = refl
length-block_digests blake3 (part ∷ parts) = ap suc (length-block_digests blake3 parts)

module _ (blake3 : Blake3) (block_size detect_size : ℕ) (faults : Faults) (calm : IsCalm faults)
    (room : block_size < 2 ^ 63) (file : Bytes) (kept : ℕ) where
  copy_loop-IsTracked :
      (error : BcmrError) (parts : List Bytes) (content : Bytes) (hashes : List Bytes)
      (st : CopyState)
      → All (λ part. length part ≡ block_size) parts
      → length content ≡ length hashes * block_size
      → IsTracked blake3 block_size detect_size faults calm room file kept content hashes [] 16 st
      → (t : CopyState) × (copy_loop blake3 block_size detect_size faults never
            (some error)
            parts
            st
          ≡ (err error, t))
        × IsTracked blake3 block_size detect_size faults calm room file kept
            (content ++ concat parts)
            (hashes ++ block_digests blake3 parts)
            []
            16
            t
  unfolding copy_loop concat Runs block_digests
  copy_loop-IsTracked error [] content hashes st full aligned h =
      (st, refl, rw (append-nil content, append-nil hashes) h)
  copy_loop-IsTracked error (part ∷ parts) content hashes st (whole, full) aligned h =
      let (a, t, e, ht) =
        copy_part-IsTracked blake3 block_size detect_size faults calm room file kept content hashes
          part aligned whole st h in
      let next : length (content ++ part)
          ≡ length (hashes ++ (blake3.hash part ∷ [])) * block_size =
        grown_aligned block_size content part hashes (blake3.hash part) aligned whole in
      let (u, e', hu) =
        copy_loop-IsTracked error parts (content ++ part) (hashes ++ (blake3.hash part ∷ [])) t full
          next ht in
      (
        u,
        bind_ok _ _ e e',
        subst
            (λ (c : Bytes).
              IsTracked blake3 block_size detect_size faults calm room file kept c
                (hashes ++ (blake3.hash part ∷ block_digests blake3 parts)) [] 16 u)
            (append_assoc content part (concat parts))
            (subst
              (λ (hs : List Bytes).
                IsTracked blake3 block_size detect_size faults calm room file kept
                  ((content ++ part) ++ concat parts) hs [] 16 u)
              (append_assoc hashes (blake3.hash part ∷ []) (block_digests blake3 parts)) hu),
      )

module _ (blake3 : Blake3) (block_size detect_size : ℕ) (faults : Faults) (calm : IsCalm faults)
    (room : block_size < 2 ^ 63) where
  -- A copy that does not look for holes starts behind the blocks of its session and reads whole
  -- blocks, until a read fails; nothing else does. Then the copy fails with that error, and what
  -- was read is in the destination. Each session that a checkpoint saved can be resumed behind its
  -- last block in the destination as it was synced then, and the last one, or else what the copy
  -- started with, is less than sixteen blocks behind what was read.
  pub streaming_copy-IsResumable :
      (error : BcmrError) (need_src_hash : Bool) (session : Session) (parts : List Bytes)
      (file : Bytes)
      → All (λ part. length part ≡ block_size) parts
      → length session.block_hashes * block_size ≤ length file
      → (t : CopyState) × (streaming_copy blake3 block_size detect_size faults never
            (length session.block_hashes * block_size)
            need_src_hash
            (some session)
            parts
            (some error)
            file
          ≡ (err error, t))
        × All (IsResumable blake3 block_size) t.saves
        × ((base : ℕ) × LastSave (length session.block_hashes) base t.saves
            × (length session.block_hashes + length parts < base + checkpoint_interval_blocks))
        × (take (length session.block_hashes * block_size + length (concat parts)) t.file
            ≡ take (length session.block_hashes * block_size) file ++ concat parts)
  unfolding streaming_copy begin hasher_for
  streaming_copy-IsResumable error need_src_hash session parts file full lo =
      let hashes = session.block_hashes in
      let start = length hashes * block_size in
      let front = take start file in
      let size : length front ≡ start = length-take_of_le start file lo in
      let (t, e, h) =
        copy_loop-IsTracked blake3 block_size detect_size faults calm room file (length hashes)
          error parts front hashes
          (begin blake3 block_size detect_size faults start need_src_hash (some session) file) full
          size
          (record {
            placed = record {
              target = sym (take-append-drop start file) ∙ rw size refl;
              position = sym size;
              pending_hole = refl;
            };
            in_block = refl;
            hasher = refl;
            current = session;
            session = refl;
            recorded = refl;
            resumable = tt;
            base = length hashes;
            since = omega arith;
            recent = omega arith;
            saved = inl refl;
          }) in
      let total = length-append hashes (block_digests blake3 parts) in
      (
        t,
        bind_err _ _ e,
        h.resumable,
        (
          h.base,
          h.saved,
          omega (arith, h.since, h.recent, total, length-block_digests blake3 parts),
        ),
        take_front (front ++ concat parts) _ t.file _ h.placed.target
            (omega (arith, length-append front (concat parts), size)),
      )
