-- ===== src/Protocol/Message.antt =====
-- The messages of src/core/protocol.rs and their type bytes. A `String` is its bytes, and an array
-- `[u8; 32]` a list of bytes; `IsMessage` says what their Rust types say.
use bcmr.Prelude.{ℕ, Bool, Option, none, some, List, length, All}
use bcmr.Bytes.Word.{Bytes, IsByte, IsU32, IsU64, IsArray}
use bcmr.Bytes.Int.{ℤ, IsI64}
use bcmr.Bytes.Utf8.{IsString}

abbrev pub protocol_version : ℕ
protocol_version = 1

pub record ListEntry : Type 0 where
  pub path : Bytes
  pub size : ℕ
  pub mtime : ℤ
  pub is_dir : Bool

-- The fields of each constructor stand in the order of the source.
pub data Message : Type 0 where
  hello : (version caps : ℕ) → Message
  list : (path : Bytes) → Message
  stat : (path : Bytes) → Message
  hash : (path : Bytes) (offset : ℕ) (limit : Option ℕ) → Message
  get : (path : Bytes) (offset : ℕ) → Message
  put : (path : Bytes) (size offset : ℕ) → Message
  mkdir : (path : Bytes) → Message
  resume : (path : Bytes) → Message
  done : Message
  open_direct_channel : Message
  auth_hello : (mac : Bytes) → Message
  put_chunked : (path : Bytes) (offset length : ℕ) → Message
  get_chunked : (path : Bytes) (offset length : ℕ) → Message
  truncate : (path : Bytes) (size : ℕ) → Message
  welcome : (version caps : ℕ) → Message
  ok : (hash : Option Bytes) → Message
  error : (message : Bytes) → Message
  data_plain : (payload : Bytes) → Message
  data_compressed : (algo original_size : ℕ) (payload : Bytes) → Message
  have_blocks : (block_size : ℕ) (hashes : List Bytes) → Message
  missing_blocks : (bits : Bytes) → Message
  stat_response : (size : ℕ) (mtime : ℤ) (is_dir : Bool) → Message
  hash_response : (hash : Bytes) → Message
  list_response : (entries : List ListEntry) → Message
  resume_response : (size : ℕ) (block_hash : Option Bytes) → Message
  direct_channel_ready : (addr session_key : Bytes) → Message
  auth_challenge : (nonce : Bytes) → Message

-- A string whose length goes into a `u32`.
pub record IsText (s : Bytes) : Type 0 where
  pub string : IsString s
  pub short : IsU32 (length s)

-- A `Vec<u8>` whose length goes into a `u32`.
pub record IsBlob (s : Bytes) : Type 0 where
  pub bytes_in_range : All IsByte s
  pub short : IsU32 (length s)

abbrev pub OptText : Option Bytes → Type 0
OptText none = Unit
OptText (some s) = IsText s

abbrev pub OptU64 : Option ℕ → Type 0
OptU64 none = Unit
OptU64 (some v) = IsU64 v

pub record IsEntry (e : ListEntry) : Type 0 where
  pub path : IsText e.path
  pub size : IsU64 e.size
  pub mtime : IsI64 e.mtime

-- The values of a message's fields are values of their Rust types, and its lengths go into `u32`s.
abbrev pub IsMessage : Message → Type 0
IsMessage (hello version caps) = IsByte version × IsByte caps
IsMessage (list path) = IsText path
IsMessage (stat path) = IsText path
IsMessage (hash path offset limit) = IsText path × IsU64 offset × OptU64 limit
IsMessage (get path offset) = IsText path × IsU64 offset
IsMessage (put path size offset) = IsText path × IsU64 size × IsU64 offset
IsMessage (mkdir path) = IsText path
IsMessage (resume path) = IsText path
IsMessage done = Unit
IsMessage open_direct_channel = Unit
IsMessage (auth_hello mac) = IsArray 32 mac
IsMessage (put_chunked path offset len) = IsText path × IsU64 offset × IsU64 len
IsMessage (get_chunked path offset len) = IsText path × IsU64 offset × IsU64 len
IsMessage (truncate path size) = IsText path × IsU64 size
IsMessage (welcome version caps) = IsByte version × IsByte caps
IsMessage (ok h) = OptText h
IsMessage (error message) = IsText message
IsMessage (data_plain payload) = IsBlob payload
IsMessage (data_compressed algo size payload) = IsByte algo × IsU32 size × IsBlob payload
IsMessage (have_blocks size hashes) = IsU32 size × IsU32 (length hashes) × All (IsArray 32) hashes
IsMessage (missing_blocks bits) = IsBlob bits
IsMessage (stat_response size mtime is_dir) = IsU64 size × IsI64 mtime
IsMessage (hash_response h) = IsText h
IsMessage (list_response entries) = IsU32 (length entries) × All IsEntry entries
IsMessage (resume_response size h) = IsU64 size × OptText h
IsMessage (direct_channel_ready addr key) = IsText addr × IsArray 32 key
IsMessage (auth_challenge nonce) = IsArray 32 nonce
