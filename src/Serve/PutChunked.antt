-- ===== src/Serve/PutChunked.antt =====
-- `handle_put_chunked` of src/commands/serve/handlers.rs: a part of a file is received. The messages
-- that the client sends are a list here, with what comes behind the last one.
pub mod Unread
use bcmr.Prelude.{ℕ, ◌+◌, ◌%◌, ◌^◌, ltb, ◌==◌, if◌then◌else◌, not, ◌&&◌}
use bcmr.Prelude.{Bool, Option, none, some, List, [], ◌∷◌, length, take}
use bcmr.Bytes.Word.{Bytes}
use bcmr.Errors.{
  BcmrError, Result, ok, err, io, other, invalid_input, Exec, pure, raise, ◌>>=◌, ◌>>◌,
}
use bcmr.Protocol.Message
use bcmr.Protocol.Message.{Message, data_plain, data_compressed, done}
use bcmr.Compress.{Codecs, decode_block}
use bcmr.Serve.Put.{Faults, lift}
use bcmr.Bytes.Write.{write_at}

-- `file` is the content of the file once the writes on their way have landed, and `position` the
-- place of its next write; `unread` are the messages that were not taken from the connection. The
-- error of a write is reported at once here; in the source it comes with the next write, and that
-- of the last one is lost.
pub record ChunkState : Type 0 where
  pub file : Bytes
  pub position : ℕ
  pub written : ℕ
  pub unread : List Message

module _ (codecs : Codecs) (faults : Faults) (declared : ℕ) where
  unfoldable pub write_chunk : Bytes → Option ℕ → Exec ChunkState (Unit {0})
  write_chunk payload none st = (
    ok tt,
    record st {
      file = write_at st.position payload st.file;
      position = st.position + length payload;
      written = (st.written + length payload) % 2 ^ 64;
    },
  )
  write_chunk payload (some n) st =
      (err (io other), record st { file = write_at st.position (take n payload) st.file })

  -- In a release build the sum wraps.
  unfoldable pub take_chunk : Bytes → Exec ChunkState (Unit {0})
  take_chunk payload st =
      if ltb declared ((st.written + length payload) % 2 ^ 64)
      then (err invalid_input, st)
      else write_chunk payload (faults.cut st.position) st

  -- The match on a message that was read; `later` is the rest of the loop.
  unfoldable pub on_message : Exec ChunkState (Unit {0}) → Message → Exec ChunkState (Unit {0})
  on_message later (data_plain payload) = do take_chunk payload; later
  on_message later (data_compressed algo original_size payload) = do
    chunk ← lift (decode_block codecs algo original_size payload)
    take_chunk chunk
    later
  on_message later done = pure tt
  on_message later _ = raise invalid_input

  unfoldable pub at_end : Option BcmrError → Exec ChunkState (Unit {0})
  at_end none = raise invalid_input
  at_end (some e) = raise e

  -- A message is read only while bytes are missing.
  unfoldable pub chunk_loop :
      (ending : Option BcmrError) → List Message → Exec ChunkState (Unit {0})
  chunk_loop ending [] st = if st.written == declared then (ok tt, st) else at_end ending st
  chunk_loop ending (msg ∷ msgs) st =
      let later = chunk_loop ending msgs in
      if st.written == declared
      then (ok tt, st)
      else on_message later msg (record st { unread = msgs })

  unfoldable pub finish_chunked : (sync : Bool) → Exec ChunkState Message
  finish_chunked sync st =
      if not (st.written == declared)
      then (err invalid_input, st)
      else if sync && not faults.flushes
      then (err (io other), st)
      else (ok (Message.ok none), st)

  -- `before` is the content of the file that is there, or empty. A seek behind the range of `i64`
  -- fails.
  unfoldable pub handle_put_chunked :
      (sync : Bool) (offset : ℕ) (ending : Option BcmrError)
      → List Message
      → (before : Bytes) → Result Message × ChunkState
  handle_put_chunked sync offset ending msgs before =
      let st : ChunkState = record {
        file = before;
        position = offset;
        written = 0;
        unread = msgs;
      } in
      if not (faults.opens && ltb offset (2 ^ 63))
      then (err (io other), st)
      else (chunk_loop ending msgs >>= λ _. finish_chunked sync) st
