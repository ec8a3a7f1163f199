-- ===== src/Protocol/Codec.antt =====
-- `encode_message` and `decode_message` of src/core/protocol.rs.
pub mod RoundTrip
pub mod Shape
use bcmr.Prelude.{ℕ, ◌%◌, ◌^◌, ◌==◌, if◌then◌else◌, not}
use bcmr.Prelude.{Option, none, some, List, [], ◌∷◌, ◌++◌, length}
use bcmr.Bytes.Word.{Bytes}
use bcmr.Protocol.Tag
use bcmr.Protocol.Message
use bcmr.Protocol.Message.{Message, hello, list, stat, hash, get, put, mkdir, resume, done}
use bcmr.Protocol.Message.{open_direct_channel, auth_hello, put_chunked, get_chunked, truncate}
use bcmr.Protocol.Message.{welcome, ok, error, data_plain, data_compressed, have_blocks}
use bcmr.Protocol.Message.{missing_blocks, stat_response, hash_response, list_response}
use bcmr.Protocol.Message.{resume_response, direct_channel_ready, auth_challenge}
use bcmr.Protocol.Writer.{write_u8, write_u32_le, write_u64_le, write_i64_le, bool_byte}
use bcmr.Protocol.Writer.{write_string, write_bytes, write_opt_string, write_opt_u64}
use bcmr.Protocol.Writer.{write_list_entry, write_all}
use bcmr.Protocol.Reader.{Reader, ◌>>=◌, pure, fail, take_bytes, read_count, read_u8_or_zero}
use bcmr.Protocol.Reader.{read_u8, read_u32_le, read_u64_le, read_i64_le, read_string, read_bytes}
use bcmr.Protocol.Reader.{read_fixed, read_opt_string, read_opt_u64, read_list_entry}

-- The type byte of a message.
unfoldable pub type_byte : Message → ℕ
type_byte (hello version caps) = Tag.type_hello
type_byte (list path) = Tag.type_list
type_byte (stat path) = Tag.type_stat
type_byte (hash path offset limit) = Tag.type_hash
type_byte (get path offset) = Tag.type_get
type_byte (put path size offset) = Tag.type_put
type_byte (mkdir path) = Tag.type_mkdir
type_byte (resume path) = Tag.type_resume
type_byte done = Tag.type_done
type_byte open_direct_channel = Tag.type_open_direct
type_byte (auth_hello mac) = Tag.type_auth_hello
type_byte (put_chunked path offset len) = Tag.type_put_chunked
type_byte (get_chunked path offset len) = Tag.type_get_chunked
type_byte (truncate path size) = Tag.type_truncate
type_byte (welcome version caps) = Tag.type_welcome
type_byte (ok h) = Tag.type_ok
type_byte (error message) = Tag.type_error
type_byte (data_plain payload) = Tag.type_data
type_byte (data_compressed algo size payload) = Tag.type_data_compressed
type_byte (have_blocks size hashes) = Tag.type_have_blocks
type_byte (missing_blocks bits) = Tag.type_missing_blocks
type_byte (stat_response size mtime is_dir) = Tag.type_stat_response
type_byte (hash_response h) = Tag.type_hash_response
type_byte (list_response entries) = Tag.type_list_response
type_byte (resume_response size h) = Tag.type_resume_response
type_byte (direct_channel_ready addr key) = Tag.type_direct_ready
type_byte (auth_challenge nonce) = Tag.type_auth_challenge

-- What follows the type byte.
unfoldable pub encode_body : Message → Bytes
encode_body (hello version caps) = write_u8 version ++ write_u8 caps
encode_body (list path) = write_string path
encode_body (stat path) = write_string path
encode_body (hash path offset limit) =
    write_string path ++ (write_u64_le offset ++ write_opt_u64 limit)
encode_body (get path offset) = write_string path ++ write_u64_le offset
encode_body (put path size offset) = write_string path ++ (write_u64_le size ++ write_u64_le offset)
encode_body (mkdir path) = write_string path
encode_body (resume path) = write_string path
encode_body done = []
encode_body open_direct_channel = []
encode_body (auth_hello mac) = mac
encode_body (put_chunked path offset len) =
    write_string path ++ (write_u64_le offset ++ write_u64_le len)
encode_body (get_chunked path offset len) =
    write_string path ++ (write_u64_le offset ++ write_u64_le len)
encode_body (truncate path size) = write_string path ++ write_u64_le size
encode_body (welcome version caps) = write_u8 version ++ write_u8 caps
encode_body (ok h) = write_opt_string h
encode_body (error message) = write_string message
encode_body (data_plain payload) = write_bytes payload
encode_body (data_compressed algo size payload) =
    write_u8 algo ++ (write_u32_le size ++ write_bytes payload)
encode_body (have_blocks size hashes) =
    write_u32_le size ++ (write_u32_le (length hashes % 2 ^ 32) ++ write_all (λ h. h) hashes)
encode_body (missing_blocks bits) = write_bytes bits
encode_body (stat_response size mtime is_dir) =
    write_u64_le size ++ (write_i64_le mtime ++ write_u8 (bool_byte is_dir))
encode_body (hash_response h) = write_string h
encode_body (list_response entries) =
    write_u32_le (length entries % 2 ^ 32) ++ write_all write_list_entry entries
encode_body (resume_response size h) = write_u64_le size ++ write_opt_string h
encode_body (direct_channel_ready addr key) = write_string addr ++ key
encode_body (auth_challenge nonce) = nonce

unfoldable pub encode_payload : Message → Bytes
encode_payload msg = type_byte msg ∷ encode_body msg

unfoldable pub encode_message : Message → Bytes
encode_message msg =
    let payload = encode_payload msg in write_u32_le (length payload % 2 ^ 32) ++ payload

-- The arms of the match on the type byte, in the source's order.
unfoldable pub decode_arms : List (ℕ × Reader Message)
decode_arms =
    (Tag.type_hello, do v ← read_u8; caps ← read_u8_or_zero; pure (hello v caps))
    ∷ (Tag.type_list, do path ← read_string; pure (list path))
    ∷ (Tag.type_stat, do path ← read_string; pure (stat path))
    ∷ (
      Tag.type_hash,
      do
        path ← read_string
        offset ← read_u64_le
        limit ← read_opt_u64
        pure (hash path offset limit),
    )
    ∷ (Tag.type_get, do path ← read_string; offset ← read_u64_le; pure (get path offset))
    ∷ (
      Tag.type_put,
      do path ← read_string; size ← read_u64_le; offset ← read_u64_le; pure (put path size offset),
    )
    ∷ (Tag.type_mkdir, do path ← read_string; pure (mkdir path))
    ∷ (Tag.type_resume, do path ← read_string; pure (resume path))
    ∷ (Tag.type_done, pure done)
    ∷ (Tag.type_welcome, do v ← read_u8; caps ← read_u8_or_zero; pure (welcome v caps))
    ∷ (Tag.type_ok, do h ← read_opt_string; pure (ok h))
    ∷ (Tag.type_error, do message ← read_string; pure (error message))
    ∷ (Tag.type_data, do payload ← read_bytes; pure (data_plain payload))
    ∷ (
      Tag.type_data_compressed,
      do
        algo ← read_u8
        size ← read_u32_le
        payload ← read_bytes
        pure (data_compressed algo size payload),
    )
    ∷ (
      Tag.type_have_blocks,
      do
        size ← read_u32_le
        count ← read_u32_le
        hashes ← read_count count (read_count 32 read_u8)
        pure (have_blocks size hashes),
    )
    ∷ (Tag.type_missing_blocks, do bits ← read_bytes; pure (missing_blocks bits))
    ∷ (
      Tag.type_stat_response,
      do
        size ← read_u64_le
        mtime ← read_i64_le
        is_dir ← read_u8
        pure (stat_response size mtime (not (is_dir == 0))),
    )
    ∷ (Tag.type_hash_response, do h ← read_string; pure (hash_response h))
    ∷ (
      Tag.type_list_response,
      do
        count ← read_u32_le
        entries ← read_count count read_list_entry
        pure (list_response entries),
    )
    ∷ (
      Tag.type_resume_response,
      do size ← read_u64_le; h ← read_opt_string; pure (resume_response size h),
    )
    ∷ (Tag.type_open_direct, pure open_direct_channel)
    ∷ (Tag.type_auth_hello, do mac ← read_fixed 32; pure (auth_hello mac))
    ∷ (
      Tag.type_direct_ready,
      do addr ← read_string; key ← read_fixed 32; pure (direct_channel_ready addr key),
    )
    ∷ (Tag.type_auth_challenge, do nonce ← read_fixed 32; pure (auth_challenge nonce))
    ∷ (
      Tag.type_put_chunked,
      do
        path ← read_string
        offset ← read_u64_le
        len ← read_u64_le
        pure (put_chunked path offset len),
    )
    ∷ (
      Tag.type_get_chunked,
      do
        path ← read_string
        offset ← read_u64_le
        len ← read_u64_le
        pure (get_chunked path offset len),
    )
    ∷ (Tag.type_truncate, do path ← read_string; size ← read_u64_le; pure (truncate path size))
    ∷ []

-- The first arm for the byte; no arm is `return None`.
unfoldable pub match_byte : ℕ → List (ℕ × Reader Message) → Reader Message
match_byte ty [] = fail
match_byte ty ((tag, read) ∷ arms) = if ty == tag then read else match_byte ty arms

unfoldable pub decode_body : ℕ → Reader Message
unfolding decode_arms match_byte
decode_body ty = match_byte ty decode_arms

unfoldable pub decode_payload : Reader Message
decode_payload = do ty ← read_u8; decode_body ty

-- The length prefix, and the payload that it announces.
unfoldable pub frame_payload : Reader Bytes
frame_payload = do len ← read_u32_le; take_bytes len

-- Bytes behind the frame, and behind the message in the payload, are ignored.
unfoldable pub decode_message : Bytes → Option Message
decode_message frame = elim (frame_payload frame) [
  | none ↦ none
  | some (payload, _) ↦ elim (decode_payload payload) [ none ↦ none | some (msg, _) ↦ some msg ]
]
