-- ===== src/Serve/Put/Deduplicated.antt =====
-- An upload of which the server has kept some blocks: the client sends the others.
use bcmr.Prelude.{ℕ, suc, ◌+◌, ◌^◌, ◌≡◌, ◌<◌, refl, ap, ◌∙◌, arith, true, false}
use bcmr.Prelude.{ltb, Option, none, some, List, [], ◌∷◌}
use bcmr.Prelude.{length, length-append, drop, concat, All}
use bcmr.Prelude.{replicate, ◌/◌, ◌==◌, ==_iff}
use bcmr.Bytes.Word.{Bytes}
use bcmr.Bytes.Digest.{Blake3}
use bcmr.Errors.{BcmrError, ok, bind_ok}
use bcmr.Errors.Runs.{Runs}
use bcmr.Protocol.Message.{Message, have_blocks, missing_blocks}
use bcmr.Compress.{CompressionAlgo, Codecs, IsLossless}
use bcmr.Session.Store.{to_hex}
use bcmr.Cas.{Blob, Cas}
use bcmr.Cas.Addressed.{IsAddressed, evict_to_cap-All}
use bcmr.Cas.Grows.{Holds}
use bcmr.Serve.Put.{PutState, Faults, mark_missing}
use bcmr.Serve.Put.{cap_evicted, announce, receive, flush_remaining_cas_blocks, finish, reply_hash}
use bcmr.Serve.Put.{start, put_opened, handle_put}
use bcmr.Serve.Put.Bitmap.{Marks, mark_missing-Marks}
use bcmr.Serve.Put.Delivered.{IsCalm, Short}
use bcmr.Serve.Put.Kept.{digests, Apart, at_cursor, Serves, AllKept}
use bcmr.Serve.Put.Kept.{flush_loop-At}
use bcmr.Serve.Put.Missing.{missing_frames, Caught, cursor_at, Mid, put_loop-Mid, current-At}

module _ (blake3 : Blake3) (codecs : Codecs) (faults : Faults) (declared_size : ℕ)
    (calm : IsCalm faults) (room : declared_size < 2 ^ 63) (Known : Bytes → Type 0)
    (apart : Apart blake3 Known) where
  module _ (hashes : List Bytes) (bits : Bytes) where
    flush-Caught :
        (whole : Bytes) (st : PutState)
        → length whole ≡ declared_size
        → (m : Mid blake3 codecs faults declared_size calm room Known apart hashes bits whole st)
        → Runs
            (flush_remaining_cas_blocks blake3 codecs faults declared_size
              (some (
                cursor_at blake3 codecs faults declared_size calm room Known apart hashes bits
                  m.place))
              st)
            (Caught blake3 codecs faults declared_size calm room Known apart hashes bits
              (m.place + length m.pending)
              (m.place + length m.pending)
              whole
              [])
    unfolding flush_remaining_cas_blocks
    flush-Caught whole st total m =
        let size = ap (λ (xs : Bytes). length xs) m.sum in
        rw (m.caught.stored.rest) (
          rw⁻¹ m.sum (
            flush_loop-At blake3 codecs faults declared_size calm room Known apart hashes bits
              m.pending m.place m.place (m.place + length m.pending) m.content st refl m.kept
              (omega (arith, size, length-append m.content (concat m.pending), total)) m.caught))

    finish-Caught :
        (k : ℕ) (whole : Bytes) (st : PutState)
        → length whole ≡ declared_size
        → Caught blake3 codecs faults declared_size calm room Known apart hashes bits k k whole []
            st
        → finish blake3 codecs faults declared_size st
          ≡ (ok (Message.ok (some (to_hex (blake3.hash whole)))), st)
    unfolding finish reply_hash
    finish-Caught k whole st total h =
        let all : (st.written == declared_size) ≡ true =
          (==_iff st.written declared_size).1 (h.written ∙ total) in
        rw (all, calm.flushes, ap (reply_hash blake3 codecs faults declared_size) h.hashed) refl

  Serves-Marks :
      (hashes : List Bytes) (bits : Bytes) (cas : Cas) (i : ℕ) (bs : List Bytes)
      → Marks cas
          (at_cursor blake3 codecs faults declared_size calm room Known apart hashes bits 0)
          i
          (digests blake3 bs)
      → Serves blake3 codecs faults declared_size calm room Known apart hashes bits cas i bs
  unfolding Serves Marks digests
  Serves-Marks hashes bits cas i [] m = tt
  Serves-Marks hashes bits cas i (b ∷ bs) (h, m) =
      (λ kept. ground (arith, h, kept), Serves-Marks hashes bits cas (suc i) bs m)

  cap_evicted-All :
      (P : Blob → Type 0) (cap_bytes : Option ℕ) (cas : Cas)
      → All P cas
      → All P (cap_evicted blake3 codecs faults declared_size cap_bytes cas)
  unfolding cap_evicted
  cap_evicted-All P none cas h = h
  cap_evicted-All P (some limit) cas h = evict_to_cap-All P faults.stuck limit cas h

  -- The bits of the reply.
  unfoldable pub missing_bits : Option ℕ → List Bytes → Cas → Bytes
  missing_bits cap_bytes blocks cas =
      let hashes = digests blake3 blocks in
      mark_missing (cap_evicted blake3 codecs faults declared_size cap_bytes cas) 0 hashes
        (replicate ((length hashes + 7) / 8) 0)

  announced :
      (cap_bytes : Option ℕ) (blocks : List Bytes) (before : Bytes) (cas : Cas)
      → IsAddressed blake3 cas
      → Holds Known cas
      → All Known blocks
      → Caught blake3 codecs faults declared_size calm room Known apart
          (digests blake3 blocks)
          (missing_bits cap_bytes blocks cas)
          0
          0
          []
          blocks
          (announce blake3 codecs faults declared_size cap_bytes
            (digests blake3 blocks)
            (start blake3 codecs faults declared_size 0 before cas))
  unfolding announce start missing_bits drop
  announced cap_bytes blocks before cas addressed known blocks_known = record {
    dedup = refl;
    file = refl;
    position = refl;
    hashed = refl;
    written = refl;
    stored = record {
      addressed = cap_evicted-All (λ b. b.hash ≡ blake3.hash b.content) cap_bytes cas addressed;
      known = cap_evicted-All (λ b. Known b.content) cap_bytes cas known;
      left_known = blocks_known;
      serves = Serves-Marks _ _ _ 0 blocks (mark_missing-Marks _ (digests blake3 blocks) _ refl);
      rest = refl;
    };
    sent = refl;
  }

  module _ (lossless : IsLossless codecs) (algo : CompressionAlgo) (ending : Option BcmrError) where
    -- If nothing fails, every block of the store has the hash that its file is named by, and no two
    -- of the blocks of the file and of the store differ and have the same hash, an upload that
    -- announces the hashes of the blocks, each below 4 GiB, and then sends those whose bit is set
    -- in the reply succeeds: the file is what all the blocks make up, and the hash that is reported
    -- is the hash of it.
    pub handle_put-missing_frames :
        (cap_bytes : Option ℕ) (block_size : ℕ) (blocks : List Bytes) (before : Bytes) (cas : Cas)
        → IsAddressed blake3 cas
        → Holds Known cas
        → All Known blocks
        → Short blocks
        → length (concat blocks) ≡ declared_size
        → (t : PutState) × (handle_put blake3 codecs faults declared_size cap_bytes 0 ending
              (have_blocks block_size (digests blake3 blocks)
                ∷ missing_frames codecs algo
                    (record {
                      hashes = digests blake3 blocks;
                      bits = missing_bits cap_bytes blocks cas;
                      cursor = 0;
                    })
                    0
                    blocks)
              before
              cas
            ≡ (ok (Message.ok (some (to_hex (blake3.hash (concat blocks))))), t))
          × (t.file ≡ concat blocks)
          × (t.sent ≡ missing_blocks (missing_bits cap_bytes blocks cas) ∷ [])
    unfolding handle_put put_opened receive Runs AllKept
    handle_put-missing_frames cap_bytes block_size blocks before cas addressed known blocks_known
          short total =
        let hashes = digests blake3 blocks in
        let bits = missing_bits cap_bytes blocks cas in
        let (u, t, ran, m) =
          put_loop-Mid blake3 codecs faults declared_size calm room Known apart hashes bits lossless
            algo ending (concat blocks) total blocks [] 0 0 [] _ (omega arith) tt refl
            (announced cap_bytes blocks before cas addressed known blocks_known) short in
        let (v, w, flushed, h) = flush-Caught hashes bits (concat blocks) t total m in
        let never : ltb declared_size 0 ≡ false = ground arith in
        (
          w,
          simp (calm.opens, never)
              (bind_ok _ _ ran (
                bind_ok _ _
                  (current-At blake3 codecs faults declared_size calm room Known apart hashes bits
                    m.place m.place m.content m.pending t m.caught)
                  (bind_ok _ _ flushed (
                    finish-Caught hashes bits (m.place + length m.pending) (concat blocks) w total
                      h)))),
          h.file,
          h.sent,
        )
