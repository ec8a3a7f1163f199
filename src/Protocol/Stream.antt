-- ===== src/Protocol/Stream.antt =====
-- `read_message` and `write_message` of src/core/protocol.rs, over the bytes that a peer has sent
-- and over those that are sent to it.
pub mod Delivery
pub mod Bounds
use bcmr.Prelude.{ℕ, ◌*◌, ltb, if◌then◌else◌, split_at?, Bool, true, false, Option, none, some}
use bcmr.Prelude.{[], ◌++◌}
use bcmr.Bytes.Word.{Bytes, from_le_bytes}
use bcmr.Errors.{IoKind, unexpected_eof, invalid_data, other, io, Result, ok, err, Exec}
use bcmr.Errors.{pure, raise, ◌>>=◌}
use bcmr.Protocol.Message.{Message}
use bcmr.Protocol.Codec.{encode_message, decode_message}

-- What the peer sent and was not read yet. Then the stream ends, or breaks with an I/O error.
pub record Stream : Type 0 where
  pub bytes : Bytes
  pub broken : Bool

-- What was sent; a closed sink refuses to take more.
pub record Sink : Type 0 where
  pub sent : Bytes
  pub closed : Bool

-- At a premature end the bytes that were left are gone.
unfoldable pub read_exact : ℕ → Exec Stream Bytes
read_exact n s = elim (split_at? n s.bytes) [
  | none ↦ (err (io (if s.broken then other else unexpected_eof)), record s { bytes = [] })
  | some (front, back) ↦ (ok front, record s { bytes = back })
]

unfoldable pub write_all : Bytes → Exec Sink (Unit {0})
write_all frame s =
    if s.closed then (err (io other), s) else (ok tt, record s { sent = s.sent ++ frame })

abbrev pub max_frame_size : ℕ
max_frame_size = 16 * 1024 * 1024

-- `decode_message(..).map(Some).ok_or_else(..)`
unfoldable pub decoded : Option Message → Exec Stream (Option Message)
decoded none = raise (io invalid_data)
decoded (some msg) = pure (some msg)

unfoldable pub read_payload : Bytes → Exec Stream (Option Message)
read_payload len_buf =
    let payload_len = from_le_bytes len_buf in
    if ltb max_frame_size payload_len
    then raise (io invalid_data)
    else do payload ← read_exact payload_len; decoded (decode_message (len_buf ++ payload))

-- The match on the result of the first `read_exact`.
unfoldable pub after_header : Result Bytes → Exec Stream (Option Message)
after_header (ok len_buf) = read_payload len_buf
after_header (err (io unexpected_eof)) = pure none
after_header (err e) = raise e

unfoldable pub read_message : Exec Stream (Option Message)
read_message s = let (header, s') = read_exact 4 s in after_header header s'

-- The frame of a session key is scrubbed from memory after it is sent; nothing of that is visible.
unfoldable pub write_message : Message → Exec Sink (Unit {0})
write_message msg = write_all (encode_message msg)
