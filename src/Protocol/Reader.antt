-- ===== src/Protocol/Reader.antt =====
-- `Cursor` of src/core/protocol.rs. A cursor is the bytes from its position on: `pos` only grows,
-- and nothing reads before it. A read that fails ends the decoding, so its cursor is dropped.
pub mod Laws
pub mod Yields
use bcmr.Prelude.{ℕ, zero, suc, ◌≡◌, Bool, true, false, not, ◌==◌, if◌then◌else◌, split_at?}
use bcmr.Prelude.{Option, none, some, List, [], ◌∷◌}
use bcmr.Bytes.Word.{Bytes, from_le_bytes}
use bcmr.Bytes.Int.{ℤ, i64_of_bits}
use bcmr.Bytes.Utf8.{is_utf8}
use bcmr.Protocol.Message.{ListEntry}

abbrev pub Reader : Type 0 → Type 0
Reader A = Bytes → Option (A × Bytes)

infixl 5 ◌>>=◌
-- The `?` operator.
unfoldable pub ◌>>=◌ : {A B : Type 0} → Reader A → (A → Reader B) → Reader B
◌>>=◌ m f bs = elim (m bs) [ none ↦ none | some (a, rest) ↦ f a rest ]

abbrev pub pure : {A : Type 0} → A → Reader A
pure a bs = some (a, bs)

abbrev pub fail : {A : Type 0} → Reader A
fail bs = none

-- `self.data.get(self.pos..self.pos + n)?`
unfoldable pub take_bytes : ℕ → Reader Bytes
take_bytes n bs = split_at? n bs

unfoldable pub read_u8 : Reader ℕ
read_u8 [] = none
read_u8 (b ∷ bs) = some (b, bs)

unfoldable pub read_u32_le : Reader ℕ
read_u32_le = do bytes ← take_bytes 4; pure (from_le_bytes bytes)

unfoldable pub read_u64_le : Reader ℕ
read_u64_le = do bytes ← take_bytes 8; pure (from_le_bytes bytes)

unfoldable pub read_i64_le : Reader ℤ
read_i64_le = do bytes ← take_bytes 8; pure (i64_of_bits (from_le_bytes bytes))

unfoldable pub read_string : Reader Bytes
read_string = do
  len ← read_u32_le
  bytes ← take_bytes len
  if is_utf8 bytes then pure bytes else fail

unfoldable pub read_bytes : Reader Bytes
read_bytes = do len ← read_u32_le; take_bytes len

unfoldable pub read_fixed : ℕ → Reader Bytes
read_fixed n = take_bytes n

unfoldable pub read_opt_string : Reader (Option Bytes)
read_opt_string = do
  present ← read_u8
  if present == 1 then (do s ← read_string; pure (some s)) else pure none

unfoldable pub read_opt_u64 : Reader (Option ℕ)
read_opt_u64 = do
  present ← read_u8
  if present == 1 then (do v ← read_u64_le; pure (some v)) else pure none

unfoldable pub read_list_entry : Reader ListEntry
read_list_entry = do
  path ← read_string
  size ← read_u64_le
  mtime ← read_i64_le
  is_dir ← read_u8
  pure (record { path = path; size = size; mtime = mtime; is_dir = not (is_dir == 0) })

-- `p.read_u8().unwrap_or(0)`: the cursor stays where it was if nothing is left.
unfoldable pub read_u8_or_zero : Reader ℕ
read_u8_or_zero [] = some (0, [])
read_u8_or_zero (b ∷ bs) = some (b, bs)

-- `for _ in 0..count { out.push(read()?) }`
unfoldable pub read_count : {A : Type 0} → ℕ → Reader A → Reader (List A)
read_count zero read bs = some ([], bs)
read_count (suc n) read bs = elim (read bs) [
  | none ↦ none
  | some (a, rest) ↦ elim (read_count n read rest) [
    | none ↦ none
    | some (more, rest') ↦ some (a ∷ more, rest')
  ]
]
