-- ===== src/Serve/Get.antt =====
-- `handle_get`, `handle_get_chunked`, `handle_hash` and `handle_resume` of
-- src/commands/serve/handlers.rs: what the server reads from its files. The messages that it sends
-- are a list; the size of a chunk, 4 MiB in the source, is a parameter.
pub mod Parts
pub mod Chunked
pub mod Hashed
use bcmr.Prelude.{ℕ, zero, suc, ◌+◌, ◌-◌, ◌*◌, ◌/◌, ◌^◌, ltb, if◌then◌else◌, Bool, true, false}
use bcmr.Prelude.{Option, none, some, List, [], ◌∷◌, ◌++◌, length, not, ◌||◌}
use Prim.Native.Nat.{min}
use bcmr.Bytes.Word.{Bytes}
use bcmr.Bytes.Read.{ReadFile, read}
use bcmr.Bytes.Digest.{Blake3}
use bcmr.Errors.{Result, ok, err, io, other, invalid_input, Exec, pure, raise, ◌>>=◌, ◌>>◌}
use bcmr.Protocol.Message
use bcmr.Protocol.Message.{Message, hash_response, resume_response}
use bcmr.Compress.{CompressionAlgo, Codecs, encode_block}
use bcmr.Serve.Put.{lift}
use bcmr.Session.Store.{to_hex}

-- `framing.write_message(out, &frame)`, on a connection that takes what is written.
unfoldable pub send : Message → Exec (List Message) (Unit {0})
send msg sent = (ok tt, sent ++ (msg ∷ []))

-- A seek to 0 is not made; one behind the range of `i64` fails.
unfoldable pub opened_at : (offset : ℕ) → Option ReadFile → Result ReadFile
opened_at offset none = err (io other)
opened_at offset (some file) = if ltb offset (2 ^ 63) then ok file else err (io other)

module _ (blake3 : Blake3) (codecs : Codecs) (chunk_size : ℕ) (algo : CompressionAlgo) where
  -- One round: what was read is sent, or nothing was left; `later` is the rest of the loop.
  unfoldable pub get_round :
      (later : Bytes → Exec (List Message) Bytes) (text part : Bytes) → Exec (List Message) Bytes
  get_round later text [] = pure text
  get_round later text (b ∷ bs) = do
    send (encode_block codecs algo (b ∷ bs))
    later (text ++ (b ∷ bs))

  -- The loop returns what the hasher was updated with. Each of its rounds but the last one reads a
  -- byte, so that it makes at most one round more than the file has bytes.
  unfoldable pub get_loop :
      (fuel : ℕ) → ReadFile → (at : ℕ) (text : Bytes) → Exec (List Message) Bytes
  get_loop zero file at text = pure text
  get_loop (suc fuel) file at text = do
    part ← lift (read file at chunk_size)
    get_round (get_loop fuel file (at + length part)) text part

  unfoldable pub reply_hash : (fast : Bool) (text : Bytes) → Option Bytes
  reply_hash true text = none
  reply_hash false text = some (to_hex (blake3.hash text))

  -- `handle_get`, where it does not splice.
  unfoldable pub handle_get :
      (offset : ℕ) (fast : Bool) → Option ReadFile → Exec (List Message) (Unit {0})
  handle_get offset fast path = do
    file ← lift (opened_at offset path)
    text ← get_loop (suc (length file.content)) file offset []
    send (Message.ok (reply_hash fast text))

  unfoldable pub chunked_round :
      (later : Exec (List Message) (Unit {0})) (part : Bytes) → Exec (List Message) (Unit {0})
  chunked_round later [] = raise invalid_input
  chunked_round later (b ∷ bs) = do send (encode_block codecs algo (b ∷ bs)); later

  -- The loop while bytes remain; each round takes at least one of them.
  unfoldable pub chunked_loop :
      (fuel : ℕ) → ReadFile → (at remaining : ℕ) → Exec (List Message) (Unit {0})
  chunked_loop fuel file at zero = pure tt
  chunked_loop zero file at (suc r) = pure tt
  chunked_loop (suc fuel) file at (suc r) = do
    part ← lift (read file at (min (suc r) chunk_size))
    chunked_round (chunked_loop fuel file (at + length part) (suc r - length part)) part

  unfoldable pub handle_get_chunked :
      (offset size : ℕ) → Option ReadFile → Exec (List Message) (Unit {0})
  handle_get_chunked offset size path = do
    file ← lift (opened_at offset path)
    chunked_loop size file offset size
    send (Message.ok none)

module _ (blake3 : Blake3) (chunk_size : ℕ) where
  -- How much the next round reads; `none` where the loop ends.
  unfoldable pub to_read : (remaining : Option ℕ) → Option ℕ
  to_read none = some chunk_size
  to_read (some zero) = none
  to_read (some (suc r)) = some (min (suc r) chunk_size)

  unfoldable pub left_of : (remaining : Option ℕ) (n : ℕ) → Option ℕ
  left_of none n = none
  left_of (some r) n = some (r - n)

  unfoldable pub hash_round : (later : Bytes → Result Bytes) (text part : Bytes) → Result Bytes
  hash_round later text [] = ok text
  hash_round later text (b ∷ bs) = later (text ++ (b ∷ bs))

  unfoldable pub hash_read :
      (later : Bytes → Bytes → Result Bytes) (text : Bytes) → Result Bytes → Result Bytes
  hash_read later text (err e) = err e
  hash_read later text (ok part) = hash_round (later part) text part

  -- The bytes that the hasher is updated with.
  unfoldable pub hash_loop :
      (fuel : ℕ) → ReadFile → (at : ℕ) (remaining : Option ℕ) (text : Bytes) → Result Bytes
  hash_loop zero file at remaining text = ok text
  hash_loop (suc fuel) file at remaining text = elim (to_read remaining) [
    | none ↦ ok text
    | some want ↦
        hash_read
          (λ part now. hash_loop fuel file (at + length part) (left_of remaining (length part)) now)
          text (read file at want)
  ]

  unfoldable pub digest_reply : Result Bytes → Result Message
  digest_reply (ok text) = ok (hash_response (to_hex (blake3.hash text)))
  digest_reply (err e) = err e

  unfoldable pub hash_opened : (offset : ℕ) (limit : Option ℕ) → Result ReadFile → Result Message
  hash_opened offset limit (err e) = err e
  hash_opened offset limit (ok file) =
      digest_reply (hash_loop (suc (length file.content)) file offset limit [])

  unfoldable pub handle_hash : (offset : ℕ) (limit : Option ℕ) → Option ReadFile → Result Message
  handle_hash offset limit path = hash_opened offset limit (opened_at offset path)

  unfoldable pub resume_reply : (size : ℕ) → Result Bytes → Result Message
  resume_reply size (ok block) = ok (resume_response size (some (to_hex (blake3.hash block))))
  resume_reply size (err e) = err e

  -- `size` is the length in the metadata, or `none` where there are none; the whole of the last
  -- full block is asked for in one read.
  unfoldable pub handle_resume : (size : Option ℕ) → Option ReadFile → Result Message
  handle_resume none path = ok (resume_response 0 none)
  handle_resume (some size) path =
      let block_start = (size / chunk_size - 1) * chunk_size in
      if ltb size chunk_size
      then ok (resume_response size none)
      else elim (opened_at block_start path) [
        | err e ↦ err e
        | ok file ↦ resume_reply size (read file block_start chunk_size)
      ]
