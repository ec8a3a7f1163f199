-- ===== src/Client/Get.antt =====
-- `get_chunked` of src/core/serve_client/ops.rs: the client fetches a part of a file and writes it
-- into a part of a local one. What it receives is a list of messages, and what comes behind them.
pub mod Placed
pub mod Fetched
use bcmr.Prelude.{ℕ, zero, suc, ◌+◌, ◌%◌, ◌^◌, ltb, ◌==◌, if◌then◌else◌, not, Bool, true, false}
use bcmr.Prelude.{Option, none, some, List, [], ◌∷◌, length, take, drop}
use bcmr.Bytes.Word.{Bytes}
use bcmr.Bytes.Write.{write_at}
use bcmr.Errors.{
  BcmrError, Result, ok, err, io, other, invalid_input, Exec, pure, raise, ◌>>=◌, ◌>>◌,
}
use bcmr.Protocol.Message
use bcmr.Protocol.Message.{Message, data_plain, data_compressed}
use bcmr.Compress.{Codecs, decode_block}
use bcmr.Serve.Put.{lift}

-- A write through `tokio::fs::File` returns when its bytes are on their way; `flight` is the one
-- that is, with its place, `file` the content without it, and `position` the place of the next one.
pub record GetState : Type 0 where
  pub file : Bytes
  pub flight : Option (ℕ × Bytes)
  pub position : ℕ
  pub written : ℕ

-- Whether the local file can be opened, how much is written where a write fails, and how many bytes
-- tokio takes at once.
pub record LocalFaults : Type 0 where
  pub opens : Bool
  pub cut : ℕ → Option ℕ
  pub buffer : ℕ

module _ (faults : LocalFaults) where
  unfoldable pub landing : ℕ → Bytes → Option ℕ → Exec GetState (Unit {0})
  landing at piece none st = (ok tt, record st { file = write_at at piece st.file; flight = none })
  landing at piece (some n) st =
      (err (io other), record st { file = write_at at (take n piece) st.file; flight = none })

  unfoldable pub settled : Option (ℕ × Bytes) → Exec GetState (Unit {0})
  settled none st = (ok tt, record st { flight = none })
  settled (some (at, piece)) st = landing at piece (faults.cut at) st

  -- The write on its way ends, and its error is reported.
  unfoldable pub settle : Exec GetState (Unit {0})
  settle st = settled st.flight st

  -- The local file once the write on its way has ended. The source drops the file without a flush,
  -- so that this may be after `get_chunked` returns, and its error is lost.
  unfoldable pub landed : GetState → Bytes
  landed st = (settle st).1.file

  unfoldable pub send_off : Bytes → Exec GetState (Unit {0})
  send_off piece st = (
    ok tt,
    record st { flight = some (st.position, piece); position = st.position + length piece },
  )

  -- `write_all`, in pieces of tokio's buffer.
  unfoldable pub write_all : (fuel : ℕ) → Bytes → Exec GetState (Unit {0})
  write_all zero part = pure tt
  write_all (suc fuel) [] = pure tt
  write_all (suc fuel) (b ∷ bs) = do
    settle
    send_off (take faults.buffer (b ∷ bs))
    write_all fuel (drop faults.buffer (b ∷ bs))

  unfoldable pub count : Bytes → Exec GetState (Unit {0})
  count part st = (ok tt, record st { written = (st.written + length part) % 2 ^ 64 })

  unfoldable pub write_part : Bytes → Exec GetState (Unit {0})
  write_part part = do write_all (length part) part; count part

module _ (codecs : Codecs) (faults : LocalFaults) (size : ℕ) where
  -- In a release build the sum wraps.
  unfoldable pub take_part : Bytes → Exec GetState (Unit {0})
  take_part part st =
      (if ltb size ((st.written + length part) % 2 ^ 64)
          then raise invalid_input
          else write_part faults part)
        st

  unfoldable pub got_all : Exec GetState (Unit {0})
  got_all st = (if not (st.written == size) then raise invalid_input else pure tt) st

  -- The match on a message; `later` is the rest of the loop.
  unfoldable pub on_reply : Exec GetState (Unit {0}) → Message → Exec GetState (Unit {0})
  on_reply later (data_plain payload) = do take_part payload; later
  on_reply later (data_compressed algo original_size payload) = do
    part ← lift (decode_block codecs algo original_size payload)
    take_part part
    later
  on_reply later (Message.ok hash) = got_all
  on_reply later _ = raise invalid_input

  -- `ending` is the error behind the last message, or `none` where the connection is closed.
  unfoldable pub receive_parts :
      (ending : Option BcmrError) → List Message → Exec GetState (Unit {0})
  receive_parts none [] = raise invalid_input
  receive_parts (some e) [] = raise e
  receive_parts ending (msg ∷ msgs) = on_reply (receive_parts ending msgs) msg

  -- `before` is the content of the file that is there, or empty. A seek behind the range of `i64`
  -- fails.
  unfoldable pub get_chunked :
      (local_offset : ℕ) (ending : Option BcmrError)
      → List Message
      → (before : Bytes) → Result (Unit {0}) × GetState
  get_chunked local_offset ending msgs before =
      let st : GetState = record {
        file = before;
        flight = none;
        position = local_offset;
        written = 0;
      } in
      (if not faults.opens
          then raise (io other)
          else if not (ltb local_offset (2 ^ 63))
          then raise (io other)
          else receive_parts ending msgs)
        st
