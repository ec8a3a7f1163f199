-- ===== src/Session.antt =====
-- src/core/session.rs: the record of an unfinished copy, which survives a crash.
pub mod Format
pub mod RoundTrip
pub mod Accepts
pub mod Resume
pub mod Store
use bcmr.Prelude.{ℕ, zero, ◌+◌, ◌*◌, ◌^◌, ◌%◌, ◌==◌, Bool, ◌&&◌, Option, none, some, List, [], ◌∷◌}
use bcmr.Prelude.{◌++◌, All, length}
use bcmr.Bytes.Word.{Bytes, IsByte, IsU32, IsU64, IsArray, to_le_bytes}

abbrev pub block_size : ℕ
block_size = 4 * 1024 * 1024

abbrev pub session_max_age_secs : ℕ
session_max_age_secs = 7 * 24 * 3600

pub record Session : Type 0 where
  pub src_path : Bytes
  pub dst_path : Bytes
  pub src_size : ℕ
  pub src_mtime : ℕ
  pub src_inode : ℕ
  pub bytes_written : ℕ
  pub block_hashes : List Bytes
  pub src_hash : Option Bytes
  pub created_at : ℕ
  pub updated_at : ℕ

-- `now` is what `now_secs()` returns.
unfoldable pub new : ℕ → Bytes → Bytes → ℕ → ℕ → ℕ → Session
new now src dst src_size src_mtime src_inode = record {
  src_path = src;
  dst_path = dst;
  src_size = src_size;
  src_mtime = src_mtime;
  src_inode = src_inode;
  bytes_written = 0;
  block_hashes = [];
  src_hash = none;
  created_at = now;
  updated_at = now;
}

-- In a release build the sum wraps.
unfoldable pub add_block : ℕ → Bytes → ℕ → Session → Session
add_block now hash block_bytes s = record s {
  block_hashes = s.block_hashes ++ (hash ∷ []);
  bytes_written = (s.bytes_written + block_bytes) % 2 ^ 64;
  updated_at = now;
}

unfoldable pub set_src_hash : Bytes → Session → Session
set_src_hash hash s = record s { src_hash = some hash }

unfoldable pub source_matches : ℕ → ℕ → ℕ → Session → Bool
source_matches src_size src_mtime src_inode s =
    s.src_size == src_size && s.src_mtime == src_mtime && s.src_inode == src_inode

abbrev pub OptHash : Option Bytes → Type 0
OptHash none = Unit
OptHash (some h) = IsArray 32 h

-- The fields are values of their Rust types, and the lengths go into `u32`s.
pub record IsSession (s : Session) : Type 0 where
  pub src_path : All IsByte s.src_path × IsU32 (length s.src_path)
  pub dst_path : All IsByte s.dst_path × IsU32 (length s.dst_path)
  pub src_size : IsU64 s.src_size
  pub src_mtime : IsU64 s.src_mtime
  pub src_inode : IsU64 s.src_inode
  pub bytes_written : IsU64 s.bytes_written
  pub block_hashes : All (IsArray 32) s.block_hashes × IsU32 (length s.block_hashes)
  pub src_hash : OptHash s.src_hash
  pub created_at : IsU64 s.created_at
  pub updated_at : IsU64 s.updated_at
