-- ===== src/Protocol/Writer.antt =====
-- The `write_*` helpers of src/core/protocol.rs. Each appends to a buffer; its model is what it
-- appends.
use bcmr.Prelude.{ℕ, ◌%◌, ◌^◌, Bool, true, false, Option, none, some, List, [], ◌∷◌, ◌++◌, length}
use bcmr.Bytes.Word.{Bytes, to_le_bytes}
use bcmr.Bytes.Int.{ℤ, i64_bits}
use bcmr.Protocol.Message.{ListEntry}

abbrev pub write_u8 : ℕ → Bytes
write_u8 v = v ∷ []

abbrev pub bool_byte : Bool → ℕ
bool_byte true = 1
bool_byte false = 0

unfoldable pub write_u32_le : ℕ → Bytes
write_u32_le v = to_le_bytes 4 v

unfoldable pub write_u64_le : ℕ → Bytes
write_u64_le v = to_le_bytes 8 v

unfoldable pub write_i64_le : ℤ → Bytes
write_i64_le v = to_le_bytes 8 (i64_bits v)

-- `len() as u32` wraps.
unfoldable pub write_string : Bytes → Bytes
write_string s = write_u32_le (length s % 2 ^ 32) ++ s

unfoldable pub write_bytes : Bytes → Bytes
write_bytes bytes = write_u32_le (length bytes % 2 ^ 32) ++ bytes

unfoldable pub write_opt_string : Option Bytes → Bytes
write_opt_string (some s) = write_u8 1 ++ write_string s
write_opt_string none = write_u8 0

unfoldable pub write_opt_u64 : Option ℕ → Bytes
write_opt_u64 (some v) = write_u8 1 ++ write_u64_le v
write_opt_u64 none = write_u8 0

unfoldable pub write_list_entry : ListEntry → Bytes
write_list_entry entry =
    write_string entry.path
    ++ (write_u64_le entry.size ++ (write_i64_le entry.mtime ++ write_u8 (bool_byte entry.is_dir)))

-- `for x in xs { write(buf, x) }`
unfoldable pub write_all : {A : Type 0} → (A → Bytes) → List A → Bytes
write_all write [] = []
write_all write (x ∷ xs) = write x ++ write_all write xs
