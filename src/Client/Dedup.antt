-- ===== src/Client/Dedup.antt =====
-- `put_with_dedup` and `compute_block_hashes` of src/core/serve_client/ops.rs: the client announces
-- the hashes of the blocks of a file, and sends those that the server does not have. The state are
-- the messages that were sent; the server's answer is given. A block has `block_size` bytes.
pub mod Blocks
pub mod Kept
use bcmr.Prelude.{ℕ, zero, suc, ◌+◌, ◌-◌, ◌/◌, ◌%◌, ◌^◌, ◌==◌, ltb, if◌then◌else◌, Bool}
use bcmr.Prelude.{Option, none, some, List, [], ◌∷◌, ◌++◌, length, get_elem?}
use bcmr.Bytes.Word.{Bytes}
use bcmr.Bytes.Read.{ReadFile, read}
use bcmr.Bytes.Digest.{Blake3}
use bcmr.Errors.{
  BcmrError, Result, ok, err, io, other, invalid_input, Exec, pure, raise, ◌>>=◌, ◌>>◌,
}
use bcmr.Protocol.Message.{Message, have_blocks, missing_blocks}
use bcmr.Compress.{CompressionAlgo, Codecs, encode_block}
use bcmr.Serve.Put.{byte_or_zero, lift}
use bcmr.Serve.Get.{send}

-- `(bits.get(idx / 8).copied().unwrap_or(0) >> (idx % 8)) & 1 == 1`
unfoldable pub wanted : Bytes → ℕ → Bool
wanted bits idx = byte_or_zero (get_elem? bits (idx / 8)) / 2 ^ (idx % 8) % 2 == 1

-- What was read, and what fills the rest of the buffer.
unfoldable pub fill_round : {S : Type 0} → Bytes → Exec S Bytes → Exec S Bytes
fill_round [] later = pure []
fill_round (b ∷ bs) later = do rest ← later; pure ((b ∷ bs) ++ rest)

-- The loop that fills the buffer, of which `want` bytes are left; each round but the last takes at
-- least one, so that `want` rounds are enough.
unfoldable pub fill : {S : Type 0} → (rounds : ℕ) → ReadFile → (at want : ℕ) → Exec S Bytes
fill zero file at want = pure []
fill (suc n) file at want =
    let more = (do
      part ← lift (read file at want)
      fill_round part (fill n file (at + length part) (want - length part))) in
    if want == 0 then pure [] else more

module _ (blake3 : Blake3) (codecs : Codecs) (block_size : ℕ) (algo : CompressionAlgo) where
  unfoldable pub hash_round : {S : Type 0} → Bytes → Exec S (List Bytes) → Exec S (List Bytes)
  hash_round [] later = pure []
  hash_round (b ∷ bs) later =
      if ltb (length (b ∷ bs)) block_size
      then pure (blake3.hash (b ∷ bs) ∷ [])
      else (do hashes ← later; pure (blake3.hash (b ∷ bs) ∷ hashes))

  -- The loop over the blocks; the file has fewer blocks than there are rounds.
  unfoldable pub hash_loop : {S : Type 0} → (rounds : ℕ) → ReadFile → (at : ℕ) → Exec S (List Bytes)
  hash_loop zero file at = pure []
  hash_loop (suc n) file at = do
    block ← fill block_size file at block_size
    hash_round block (hash_loop n file (at + length block))

  -- `none` is a file that cannot be opened.
  unfoldable pub compute_block_hashes : {S : Type 0} → Option ReadFile → Exec S (List Bytes)
  compute_block_hashes none = raise (io other)
  compute_block_hashes (some file) = hash_loop (length file.content + 1) file 0

  unfoldable pub missing_reply : Result Message → Result Bytes
  missing_reply (ok (missing_blocks bits)) = ok bits
  missing_reply (ok _) = err invalid_input
  missing_reply (err e) = err e

  unfoldable pub send_round :
      (bits : Bytes) (idx : ℕ)
      → Bytes
      → Exec (List Message) (Unit {0})
      → Exec (List Message) (Unit {0})
  send_round bits idx [] later = pure tt
  send_round bits idx (b ∷ bs) later =
      let sent_too = (do send (encode_block codecs algo (b ∷ bs)); later) in
      if wanted bits idx then sent_too else later

  -- The loop over the `n` blocks from the `idx`-th one on.
  unfoldable pub send_loop :
      (n : ℕ) → ReadFile → (bits : Bytes) (idx at : ℕ) → Exec (List Message) (Unit {0})
  send_loop zero file bits idx at = pure tt
  send_loop (suc n) file bits idx at = do
    block ← fill block_size file at block_size
    send_round bits idx block (send_loop n file bits (suc idx) (at + length block))

  unfoldable pub send_missing :
      Option ReadFile → (n : ℕ) (bits : Bytes) → Exec (List Message) (Unit {0})
  send_missing none n bits = raise (io other)
  send_missing (some file) n bits = send_loop n file bits 0 0

  unfoldable pub put_with_dedup :
      Option ReadFile → (reply : Result Message) → Exec (List Message) (Unit {0})
  put_with_dedup file reply = do
    hashes ← compute_block_hashes file
    send (have_blocks (block_size % 2 ^ 32) hashes)
    bits ← lift (missing_reply reply)
    send_missing file (length hashes) bits
