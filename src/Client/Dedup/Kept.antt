-- ===== src/Client/Dedup/Kept.antt =====
-- An upload of which the server has kept some blocks, from the client's file to the server's.
use bcmr.Prelude.{ℕ, zero, suc, ◌+◌, ◌%◌, ◌^◌, ◌≡◌, ◌≤◌, ◌<◌, refl, sym, ap, ◌∙◌, arith, false}
use bcmr.Prelude.{if◌then◌else◌, Bool-cases, inl, inr, Option, some, All}
use bcmr.Prelude.{List, [], ◌∷◌, ◌++◌, append_assoc, length, take, drop, concat}
use bcmr.Bytes.Word.{Bytes}
use bcmr.Bytes.Read.{ReadFile, length-take}
use bcmr.Bytes.Write.{drop-drop}
use bcmr.Bytes.Digest.{Blake3}
use bcmr.Errors.{BcmrError, Result, ok, Exec, ◌>>◌, bind_ok}
use bcmr.Protocol.Message.{Message, have_blocks, missing_blocks, done}
use bcmr.Compress.{CompressionAlgo, Codecs, IsLossless, encode_block}
use bcmr.Session.Store.{to_hex}
use bcmr.Cas.{Cas}
use bcmr.Cas.Addressed.{IsAddressed}
use bcmr.Cas.Grows.{Holds}
use bcmr.Serve.Put.{PutState, Faults, is_missing, handle_put, lift}
use bcmr.Serve.Put.Delivered.{IsCalm}
use bcmr.Serve.Put.Kept.{digests, Apart}
use bcmr.Serve.Put.Missing.{missing_frames}
use bcmr.Serve.Put.Deduplicated.{missing_bits, handle_put-missing_frames}
use bcmr.Serve.Get.{send}
use bcmr.Client.Dedup.{wanted, send_round, send_loop, send_missing, missing_reply, put_with_dedup}
use bcmr.Client.Dedup.{compute_block_hashes}
use bcmr.Client.Dedup.Blocks.{
  cut, file_blocks, concat-cut, cut-short, drop-take, fill-take, hash_loop-cut,
}

is_missing-wanted :
    (hashes : List Bytes) (bits : Bytes) (idx : ℕ)
    → is_missing (record { hashes = hashes; bits = bits; cursor = 0 }) idx ≡ wanted bits idx
unfolding is_missing wanted
is_missing-wanted hashes bits idx = refl

module _ (blake3 : Blake3) (codecs : Codecs) (block_size : ℕ) (progress : 1 ≤ block_size)
    (algo : CompressionAlgo) (file : ReadFile) (fine : (at : ℕ) → file.fails at ≡ false) where
  send_round-some :
      (bits : Bytes) (idx : ℕ) (p : Bytes) (later : Exec (List Message) (Unit {0}))
      (sent : List Message) (r : Result (Unit {0}) × List Message)
      → 1 ≤ length p
      → (if wanted bits idx then send (encode_block codecs algo p) >> later else later) sent ≡ r
      → send_round blake3 codecs block_size algo bits idx p later sent ≡ r
  unfolding send_round
  send_round-some bits idx [] later sent r some_byte e = absurd (omega (arith, some_byte))
  send_round-some bits idx (b ∷ bs) later sent r some_byte e = e

  -- The messages that the loop sends, and the Done behind them.
  pub send_loop-missing_frames :
      (hashes : List Bytes) (bits : Bytes) (k idx at : ℕ) (xs : Bytes) (sent : List Message)
      → drop at file.content ≡ xs
      → (t : List Message) × (send_loop blake3 codecs block_size algo
            (length (cut k block_size xs))
            file
            bits
            idx
            at
            sent
          ≡ (ok tt, t))
        × (t ++ (done ∷ [])
            ≡ sent
              ++ missing_frames codecs algo
                  (record { hashes = hashes; bits = bits; cursor = 0 })
                  idx
                  (cut k block_size xs))
  unfolding send_loop cut missing_frames send
  send_loop-missing_frames hashes bits zero idx at xs sent e = (sent, refl, refl)
  send_loop-missing_frames hashes bits (suc k) idx at [] sent e = (sent, refl, refl)
  send_loop-missing_frames hashes bits (suc k) idx at (x ∷ xs) sent e =
      let part = take block_size (x ∷ xs) in
      let got =
        fill-take file fine block_size at block_size sent (omega arith)
        ∙ ap (λ (b : Bytes). (ok (take block_size b), sent)) e in
      let next : drop (at + length part) file.content ≡ drop block_size (x ∷ xs) =
        sym (drop-drop (length part) at file.content)
        ∙ ap (λ (b : Bytes). drop (length part) b) e
        ∙ drop-take block_size (x ∷ xs) in
      let some_byte : 1 ≤ length part = omega (arith, length-take block_size (x ∷ xs), progress) in
      elim (Bool-cases (wanted bits idx)) [
        | inl yes_wanted ↦
            let msg = encode_block codecs algo part in
            let (t, ran, all) =
              send_loop-missing_frames hashes bits k (suc idx) (at + length part)
                (drop block_size (x ∷ xs)) (sent ++ (msg ∷ [])) next in
            (
              t,
              bind_ok _ _ got (
                  send_round-some bits idx part _ sent (ok tt, t) some_byte
                    (rw yes_wanted (bind_ok _ _ refl ran))),
              rw (is_missing-wanted hashes bits idx, yes_wanted)
                  (all ∙ append_assoc sent (msg ∷ []) _),
            )
        | inr kept ↦
            let (t, ran, all) =
              send_loop-missing_frames hashes bits k (suc idx) (at + length part)
                (drop block_size (x ∷ xs)) sent next in
            (
              t,
              bind_ok _ _ got
                  (send_round-some bits idx part _ sent (ok tt, t) some_byte (rw kept ran)),
              rw (is_missing-wanted hashes bits idx, kept) all,
            )
      ]

  length-digests : (bs : List Bytes) → length (digests blake3 bs) ≡ length bs
  unfolding digests
  length-digests [] = refl
  length-digests (b ∷ bs) = ap suc (length-digests bs)

  put_with_dedup-missing_frames :
      (bits : Bytes)
      → (t : List Message) × (put_with_dedup blake3 codecs block_size algo
            (some file)
            (ok (missing_blocks bits))
            []
          ≡ (ok tt, t))
        × (t ++ (done ∷ [])
            ≡ have_blocks
                (block_size % 2 ^ 32)
                (digests blake3 (file_blocks block_size file.content))
              ∷ missing_frames codecs algo
                  (record {
                    hashes = digests blake3 (file_blocks block_size file.content);
                    bits = bits;
                    cursor = 0;
                  })
                  0
                  (file_blocks block_size file.content))
  unfolding put_with_dedup compute_block_hashes send_missing missing_reply lift send file_blocks
      drop
  put_with_dedup-missing_frames bits =
      let content = file.content in
      let blocks = cut (length content + 1) block_size content in
      let (t, ran, all) =
        send_loop-missing_frames (digests blake3 blocks) bits (length content + 1) 0 0 content
          (have_blocks (block_size % 2 ^ 32) (digests blake3 blocks) ∷ []) refl in
      (
        t,
        bind_ok _ _
            (hash_loop-cut file fine blake3 codecs block_size algo progress (length content + 1) 0
              [] (omega arith))
            (bind_ok _ _ refl (bind_ok _ _ refl (rw (length-digests blocks) ran))),
        all,
      )

module _ (blake3 : Blake3) (codecs : Codecs) (lossless : IsLossless codecs) (Known : Bytes → Type 0)
    (apart : Apart blake3 Known) (block_size : ℕ) (progress : 1 ≤ block_size)
    (small : block_size < 2 ^ 32) (algo : CompressionAlgo) (faults : Faults)
    (calm : IsCalm faults) where
  -- If nothing fails, a block has at least one byte and less than 4 GiB, every block of the store has
  -- the hash that its file is named by, and no two of the contents of the store and the blocks of
  -- the file differ and have the same hash, then, with the bits that `handle_put` answers, what
  -- `put_with_dedup` sends, and a Done behind it, makes `handle_put` succeed with the hash of the
  -- client's file, and the server's file is then equal to it, whichever blocks were in the store.
  pub put_with_dedup-handle_put :
      (cap_bytes : Option ℕ) (ending : Option BcmrError) (file : ReadFile) (before : Bytes)
      (cas : Cas)
      → ((at : ℕ) → file.fails at ≡ false)
      → length file.content < 2 ^ 63
      → IsAddressed blake3 cas
      → Holds Known cas
      → All Known (file_blocks block_size file.content)
      → (bits : Bytes) × (sent : List Message) × (t : PutState) × (put_with_dedup blake3 codecs
            block_size algo
            (some file)
            (ok (missing_blocks bits))
            []
          ≡ (ok tt, sent))
        × (handle_put blake3 codecs faults
              (length file.content)
              cap_bytes
              0
              ending
              (sent ++ (done ∷ []))
              before
              cas
            ≡ (ok (Message.ok (some (to_hex (blake3.hash file.content)))), t))
        × (t.sent ≡ missing_blocks bits ∷ [])
        × (t.file ≡ file.content)
  unfolding file_blocks
  put_with_dedup-handle_put cap_bytes ending file before cas fine room addressed known
        blocks_known =
      let content = file.content in
      let blocks = cut (length content + 1) block_size content in
      let whole : concat blocks ≡ content =
        concat-cut (length content + 1) block_size content progress (omega arith) in
      let bits =
        missing_bits blake3 codecs faults (length content) calm room Known apart cap_bytes blocks
          cas in
      let (sent, ran, all) =
        put_with_dedup-missing_frames blake3 codecs block_size progress algo file fine bits in
      let (t, received, same, replied) =
        handle_put-missing_frames blake3 codecs faults (length content) calm room Known apart
          lossless algo ending cap_bytes (block_size % 2 ^ 32) blocks before cas addressed known
          blocks_known (cut-short (length content + 1) block_size (2 ^ 32) content small)
          (ap (λ (xs : Bytes). length xs) whole) in
      (
        bits,
        sent,
        t,
        ran,
        rw all (
            received
            ∙ ap (λ (c : Bytes). (ok (Message.ok (some (to_hex (blake3.hash c)))), t)) whole),
        replied,
        same ∙ whole,
      )
