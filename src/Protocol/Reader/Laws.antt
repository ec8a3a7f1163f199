-- ===== src/Protocol/Reader/Laws.antt =====
-- Each `read_*` reads back what its `write_*` wrote, and leaves what follows.
use bcmr.Prelude.{ℕ, ◌%◌, ◌^◌, ◌≡◌, refl, ap, ◌∙◌, arith, Bool, true, false, not, ◌==◌}
use bcmr.Prelude.{Option, none, some, List, [], ◌∷◌, ◌++◌, append_assoc, length, All}
use bcmr.Prelude.{Option-cases, inl, inr, split_at?-append}
use native.Mathlib.Nat.{mod-eq_of_lt}
use bcmr.Bytes.Word.{Bytes, IsU32, IsU64, IsArray, to_le_bytes}
use bcmr.Bytes.Word.{length-to_le_bytes, from_le_bytes-to_le_bytes}
use bcmr.Bytes.Int.{ℤ, IsI64, i64_bits, i64_of_bits-i64_bits, i64_bits-IsU64}
use bcmr.Protocol.Message.{ListEntry, IsText, IsBlob, OptText, OptU64, IsEntry}
use bcmr.Protocol.Writer.{bool_byte, write_u32_le, write_u64_le, write_i64_le, write_string}
use bcmr.Protocol.Writer.{write_bytes, write_opt_string, write_opt_u64, write_list_entry}
use bcmr.Protocol.Writer.{write_all}
use bcmr.Protocol.Reader.{Reader, ◌>>=◌, take_bytes, read_count}
use bcmr.Protocol.Reader.{read_u8, read_u32_le, read_u64_le, read_i64_le, read_string, read_bytes}
use bcmr.Protocol.Reader.{read_fixed, read_opt_string, read_opt_u64, read_list_entry}

-- One step of a `do` block, from what its first read returns.
pub bind_some :
    {A B : Type 0} (m : Reader A) (f : A → Reader B) {bs : Bytes} {a : A} {rest : Bytes}
    {r : Option (B × Bytes)}
    → m bs ≡ some (a, rest)
    → f a rest ≡ r
    → (m >>= f) bs ≡ r
unfolding ◌>>=◌
bind_some m f e k = ap (λ o. elim o [ none ↦ none | some (a, rest) ↦ f a rest ]) e ∙ k

-- A `do` block that succeeds has read its first value.
pub bind_inv :
    {A B : Type 0} (m : Reader A) (f : A → Reader B) (bs : Bytes) {b : B} {rest : Bytes}
    → (m >>= f) bs ≡ some (b, rest)
    → (a : A) × (mid : Bytes) × (m bs ≡ some (a, mid)) × (f a mid ≡ some (b, rest))
unfolding ◌>>=◌
bind_inv m f bs e = elim (Option-cases (m bs)) [
  | inl short ↦ ground (arith, short)
  | inr ((a, mid), got) ↦ (a, mid, got, ground (arith, got))
]

pub take_bytes-append :
    (n : ℕ) (bs rest : Bytes) → length bs ≡ n → take_bytes n (bs ++ rest) ≡ some (bs, rest)
unfolding take_bytes
take_bytes-append n bs rest h = split_at?-append bs rest n h

take_le_bytes :
    (n v : ℕ) (rest : Bytes) → take_bytes n (to_le_bytes n v ++ rest) ≡ some (to_le_bytes n v, rest)
take_le_bytes n v rest = take_bytes-append n (to_le_bytes n v) rest (length-to_le_bytes n v)

pub read_u32_le-write :
    (v : ℕ) (rest : Bytes) → IsU32 v → read_u32_le (write_u32_le v ++ rest) ≡ some (v, rest)
unfolding read_u32_le write_u32_le
read_u32_le-write v rest h =
    bind_some _ _ (take_le_bytes 4 v rest) (rw (from_le_bytes-to_le_bytes 4 v h))

pub read_u64_le-write :
    (v : ℕ) (rest : Bytes) → IsU64 v → read_u64_le (write_u64_le v ++ rest) ≡ some (v, rest)
unfolding read_u64_le write_u64_le
read_u64_le-write v rest h =
    bind_some _ _ (take_le_bytes 8 v rest) (rw (from_le_bytes-to_le_bytes 8 v h))

pub read_i64_le-write :
    (v : ℤ) (rest : Bytes) → IsI64 v → read_i64_le (write_i64_le v ++ rest) ≡ some (v, rest)
unfolding read_i64_le write_i64_le
read_i64_le-write v rest h = bind_some _ _ (take_le_bytes 8 (i64_bits v) rest) (
    rw (from_le_bytes-to_le_bytes 8 (i64_bits v) (i64_bits-IsU64 v h))
      (rw (i64_of_bits-i64_bits v h)))

-- A length that fits is written as it is.
pub length_bytes :
    (n : ℕ) (rest : Bytes)
    → IsU32 n
    → read_u32_le (write_u32_le (n % 2 ^ 32) ++ rest) ≡ some (n, rest)
length_bytes n rest h = read_u32_le-write (n % 2 ^ 32) rest (omega arith) ∙ rw (mod-eq_of_lt h)

pub read_string-write :
    (s rest : Bytes) → IsText s → read_string (write_string s ++ rest) ≡ some (s, rest)
unfolding read_string write_string
read_string-write s rest h = rw append_assoc (
    bind_some _ _ (length_bytes (length s) (s ++ rest) h.short)
      (bind_some _ _ (take_bytes-append (length s) s rest refl) (rw h.string.utf8)))

pub read_bytes-write :
    (s rest : Bytes) → IsBlob s → read_bytes (write_bytes s ++ rest) ≡ some (s, rest)
unfolding read_bytes write_bytes
read_bytes-write s rest h = rw append_assoc (
    bind_some _ _ (length_bytes (length s) (s ++ rest) h.short)
      (take_bytes-append (length s) s rest refl))

pub read_fixed-append :
    (n : ℕ) (bs rest : Bytes) → IsArray n bs → read_fixed n (bs ++ rest) ≡ some (bs, rest)
unfolding read_fixed
read_fixed-append n bs rest h = take_bytes-append n bs rest h.size

pub read_u8-write : (v : ℕ) (rest : Bytes) → read_u8 (v ∷ rest) ≡ some (v, rest)
unfolding read_u8
read_u8-write v rest = refl

pub read_opt_string-write :
    (o : Option Bytes) (rest : Bytes)
    → OptText o
    → read_opt_string (write_opt_string o ++ rest) ≡ some (o, rest)
unfolding read_opt_string write_opt_string
read_opt_string-write none rest h = bind_some _ _ (read_u8-write 0 rest) refl
read_opt_string-write (some s) rest h =
    bind_some _ _ (read_u8-write 1 (write_string s ++ rest))
      (bind_some _ _ (read_string-write s rest h) refl)

pub read_opt_u64-write :
    (o : Option ℕ) (rest : Bytes)
    → OptU64 o
    → read_opt_u64 (write_opt_u64 o ++ rest) ≡ some (o, rest)
unfolding read_opt_u64 write_opt_u64
read_opt_u64-write none rest h = bind_some _ _ (read_u8-write 0 rest) refl
read_opt_u64-write (some v) rest h =
    bind_some _ _ (read_u8-write 1 (write_u64_le v ++ rest))
      (bind_some _ _ (read_u64_le-write v rest h) refl)

pub bool_byte-read : (b : Bool) → not (bool_byte b == 0) ≡ b
bool_byte-read true = refl
bool_byte-read false = refl

pub read_list_entry-write :
    (e : ListEntry) (rest : Bytes)
    → IsEntry e
    → read_list_entry (write_list_entry e ++ rest) ≡ some (e, rest)
unfolding read_list_entry write_list_entry
read_list_entry-write e rest h = simp append_assoc (
    bind_some _ _ (read_string-write e.path _ h.path) (
      bind_some _ _ (read_u64_le-write e.size _ h.size) (
        bind_some _ _ (read_i64_le-write e.mtime _ h.mtime) (
          bind_some _ _ (read_u8-write (bool_byte e.is_dir) rest) (rw (bool_byte-read e.is_dir))))))

-- A counted loop reads back a list that was written element by element.
pub read_count-write :
    {A : Type 0} (read : Reader A) (write : A → Bytes) (P : A → Type 0)
    → ((a : A) (rest : Bytes) → P a → read (write a ++ rest) ≡ some (a, rest))
    → (xs : List A) (rest : Bytes) → All P xs
    → read_count (length xs) read (write_all write xs ++ rest) ≡ some (xs, rest)
unfolding read_count write_all
read_count-write read write P law [] rest h = refl
read_count-write read write P law (x ∷ xs) rest (hx, h) =
    rw append_assoc (
      rw (law x (write_all write xs ++ rest) hx) (rw (read_count-write read write P law xs rest h)))
