-- ===== src/Client/Put.antt =====
-- `put_chunked` of src/core/serve_client/ops.rs: the client sends a part of its file. The state are
-- the messages that were sent; the server's answer is given.
pub mod Received
use bcmr.Prelude.{ℕ, zero, suc, ◌+◌, ◌-◌, Option, List, [], ◌∷◌, length}
use Prim.Native.Nat.{min}
use bcmr.Bytes.Word.{Bytes}
use bcmr.Bytes.Read.{ReadFile, read}
use bcmr.Errors.{Result, ok, err, invalid_input, Exec, pure, raise, ◌>>=◌, ◌>>◌}
use bcmr.Protocol.Message
use bcmr.Protocol.Message.{Message, done}
use bcmr.Compress.{CompressionAlgo, Codecs, encode_block}
use bcmr.Serve.Put.{lift}
use bcmr.Serve.Get.{send, opened_at}

unfoldable pub put_reply : Result Message → Result (Unit {0})
put_reply (ok (Message.ok hash)) = ok tt
put_reply (ok _) = err invalid_input
put_reply (err e) = err e

module _ (codecs : Codecs) (block_size : ℕ) (algo : CompressionAlgo) where
  -- One round: what was read is sent, or the file has ended; `later` is the rest of the loop.
  unfoldable pub part_round :
      (later : Exec (List Message) (Unit {0})) (part : Bytes) → Exec (List Message) (Unit {0})
  part_round later [] = raise invalid_input
  part_round later (b ∷ bs) = do send (encode_block codecs algo (b ∷ bs)); later

  -- The loop while bytes remain; each round takes at least one of them.
  unfoldable pub part_loop :
      (rounds : ℕ) → ReadFile → (at remaining : ℕ) → Exec (List Message) (Unit {0})
  part_loop rounds file at zero = pure tt
  part_loop zero file at (suc r) = pure tt
  part_loop (suc n) file at (suc r) = do
    part ← lift (read file at (min (suc r) block_size))
    part_round (part_loop n file (at + length part) (suc r - length part)) part

  unfoldable pub put_chunked :
      (remote : Bytes) (local_offset size : ℕ)
      → Option ReadFile
      → (reply : Result Message) → Exec (List Message) (Unit {0})
  put_chunked remote local_offset size local reply = do
    send (Message.put_chunked remote local_offset size)
    file ← lift (opened_at local_offset local)
    part_loop size file local_offset size
    send done
    lift (put_reply reply)
