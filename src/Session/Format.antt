-- ===== src/Session/Format.antt =====
-- `serialize`, `deserialize` and `Reader` of src/core/session.rs. Its `Reader` is the cursor of
-- Protocol/Reader.antt.
use bcmr.Prelude.{ℕ, ◌%◌, ◌^◌, ◌-◌, ltb, ◌==◌, if◌then◌else◌, not, split_at?, take}
use bcmr.Prelude.{Option, none, some, [], ◌∷◌, ◌++◌, length}
use bcmr.Bytes.Word.{Bytes, to_le_bytes, from_le_bytes}
use bcmr.Bytes.Equal.{bytes_eq}
use bcmr.Bytes.Digest.{Blake3}
use bcmr.Protocol.Writer.{write_all}
use bcmr.Protocol.Reader.{Reader, ◌>>=◌, pure, fail, take_bytes, read_count}
use bcmr.Session.{Session}

-- "BCMR"
abbrev pub session_magic : Bytes
session_magic = b'B' ∷ b'C' ∷ b'M' ∷ b'R' ∷ []

abbrev pub session_version : ℕ
session_version = 2

-- The first eight bytes of a digest.
unfoldable pub first_eight : Bytes → Bytes
first_eight digest = take 8 digest

unfoldable pub write_src_hash : Option Bytes → Bytes
write_src_hash (some h) = 1 ∷ h
write_src_hash none = 0 ∷ []

-- What follows the magic and the version.
unfoldable pub write_fields : Session → Bytes
write_fields s =
    to_le_bytes 4 (length s.src_path % 2 ^ 32)
    ++ (s.src_path
        ++ (to_le_bytes 4 (length s.dst_path % 2 ^ 32)
            ++ (s.dst_path
                ++ (to_le_bytes 8 s.src_size
                    ++ (to_le_bytes 8 s.src_mtime
                        ++ (to_le_bytes 8 s.src_inode
                            ++ (to_le_bytes 8 s.bytes_written
                                ++ (to_le_bytes 4 (length s.block_hashes % 2 ^ 32)
                                    ++ (write_all (λ h. h) s.block_hashes
                                        ++ (write_src_hash s.src_hash
                                            ++ (to_le_bytes 8 s.created_at
                                                ++ to_le_bytes 8 s.updated_at)))))))))))

unfoldable pub write_payload : Session → Bytes
write_payload s = session_magic ++ (session_version ∷ write_fields s)

-- `Reader::read_u8` and its kin.
unfoldable pub read_u8 : Reader ℕ
read_u8 = do b ← take_bytes 1; pure (from_le_bytes b)

unfoldable pub read_u32 : Reader ℕ
read_u32 = do b ← take_bytes 4; pure (from_le_bytes b)

unfoldable pub read_u64 : Reader ℕ
read_u64 = do b ← take_bytes 8; pure (from_le_bytes b)

unfoldable pub read_src_hash : Reader (Option Bytes)
read_src_hash = do
  has_src_hash ← read_u8
  if has_src_hash == 1 then (do h ← take_bytes 32; pure (some h)) else pure none

unfoldable pub read_fields : Reader Session
read_fields = do
  src_len ← read_u32
  src_path ← take_bytes src_len
  dst_len ← read_u32
  dst_path ← take_bytes dst_len
  src_size ← read_u64
  src_mtime ← read_u64
  src_inode ← read_u64
  bytes_written ← read_u64
  block_count ← read_u32
  block_hashes ← read_count block_count (take_bytes 32)
  src_hash ← read_src_hash
  created_at ← read_u64
  updated_at ← read_u64
  pure (record {
    src_path = src_path;
    dst_path = dst_path;
    src_size = src_size;
    src_mtime = src_mtime;
    src_inode = src_inode;
    bytes_written = bytes_written;
    block_hashes = block_hashes;
    src_hash = src_hash;
    created_at = created_at;
    updated_at = updated_at;
  })

unfoldable pub read_payload : Reader Session
read_payload = do
  magic ← take_bytes 4
  if not (bytes_eq magic session_magic)
      then fail
      else do version ← read_u8; if not (version == session_version) then fail else read_fields

unfoldable pub session_of : Option (Session × Bytes) → Option Session
session_of none = none
session_of (some (s, _)) = some s

module _ (blake3 : Blake3) where
  unfoldable pub serialize : Session → Bytes
  serialize s = let buf = write_payload s in buf ++ first_eight (blake3.hash buf)

  -- The payload and the stored checksum, where they agree.
  unfoldable pub checked : Option (Bytes × Bytes) → Option Session
  checked none = none
  checked (some (payload, stored_checksum)) =
      if not (bytes_eq (first_eight (blake3.hash payload)) stored_checksum)
      then none
      else session_of (read_payload payload)

  unfoldable pub deserialize : Bytes → Option Session
  deserialize bytes =
      if ltb (length bytes) 8 then none else checked (split_at? (length bytes - 8) bytes)
