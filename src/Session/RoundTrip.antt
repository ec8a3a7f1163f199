-- ===== src/Session/RoundTrip.antt =====
-- A session that was serialized is deserialized to the same session.
use bcmr.Prelude.{ℕ, ◌+◌, ◌-◌, ◌%◌, ◌^◌, ◌≡◌, refl, arith, le→ltb}
use bcmr.Prelude.{Option, none, some, List, [], ◌∷◌, ◌++◌, append_assoc, append-nil}
use bcmr.Prelude.{length, length-append, All, split_at?, split_at?-append, length-take_of_le}
use native.Mathlib.Nat.{mod-eq_of_lt}
use bcmr.Bytes.Word.{Bytes, IsU32, IsU64, IsArray, to_le_bytes, from_le_bytes}
use bcmr.Bytes.Word.{length-to_le_bytes, from_le_bytes-to_le_bytes}
use bcmr.Bytes.Equal.{bytes_eq_refl}
use bcmr.Bytes.Digest.{Blake3}
use bcmr.Protocol.Writer.{write_all}
use bcmr.Protocol.Reader.{take_bytes, read_count}
use bcmr.Protocol.Reader.Laws.{bind_some, take_bytes-append, read_count-write}
use bcmr.Session.{Session, IsSession, OptHash}
use bcmr.Session.Format.{session_magic, session_version, first_eight, write_src_hash, write_fields}
use bcmr.Session.Format.{write_payload, read_u8, read_u32, read_u64, read_src_hash, read_fields}
use bcmr.Session.Format.{read_payload, session_of, serialize, checked, deserialize}

word :
    (n v : ℕ) (rest : Bytes) → take_bytes n (to_le_bytes n v ++ rest) ≡ some (to_le_bytes n v, rest)
word n v rest = take_bytes-append n (to_le_bytes n v) rest (length-to_le_bytes n v)

read_u8-append : (v : ℕ) (rest : Bytes) → read_u8 (v ∷ rest) ≡ some (v, rest)
unfolding read_u8
read_u8-append v rest =
    bind_some _ _ (take_bytes-append 1 (v ∷ []) rest refl) (unfold from_le_bytes in ground arith)

read_u32-append :
    (n : ℕ) (rest : Bytes)
    → IsU32 n
    → read_u32 (to_le_bytes 4 (n % 2 ^ 32) ++ rest) ≡ some (n, rest)
unfolding read_u32
read_u32-append n rest h =
    bind_some _ _ (word 4 (n % 2 ^ 32) rest)
      (rw (mod-eq_of_lt h) (rw (from_le_bytes-to_le_bytes 4 n h)))

read_u64-append :
    (n : ℕ) (rest : Bytes) → IsU64 n → read_u64 (to_le_bytes 8 n ++ rest) ≡ some (n, rest)
unfolding read_u64
read_u64-append n rest h = bind_some _ _ (word 8 n rest) (rw (from_le_bytes-to_le_bytes 8 n h))

read_src_hash-append :
    (o : Option Bytes) (rest : Bytes)
    → OptHash o
    → read_src_hash (write_src_hash o ++ rest) ≡ some (o, rest)
unfolding read_src_hash write_src_hash
read_src_hash-append none rest h = bind_some _ _ (read_u8-append 0 rest) refl
read_src_hash-append (some x) rest h =
    bind_some _ _ (read_u8-append 1 (x ++ rest))
      (bind_some _ _ (take_bytes-append 32 x rest h.size) refl)

read_hashes :
    (hashes : List Bytes) (rest : Bytes)
    → All (IsArray 32) hashes
    → read_count (length hashes) (take_bytes 32) (write_all (λ h. h) hashes ++ rest)
      ≡ some (hashes, rest)
read_hashes =
    read_count-write (take_bytes 32) (λ h. h) (IsArray 32)
      λ h rest p. take_bytes-append 32 h rest p.size

read_fields-write_fields :
    (s : Session) → IsSession s → read_fields (write_fields s ++ []) ≡ some (s, [])
unfolding read_fields write_fields
read_fields-write_fields s h = simp append_assoc (
    bind_some _ _ (read_u32-append (length s.src_path) _ h.src_path.1) (
      bind_some _ _ (take_bytes-append _ s.src_path _ refl) (
        bind_some _ _ (read_u32-append (length s.dst_path) _ h.dst_path.1) (
          bind_some _ _ (take_bytes-append _ s.dst_path _ refl) (
            bind_some _ _ (read_u64-append s.src_size _ h.src_size) (
              bind_some _ _ (read_u64-append s.src_mtime _ h.src_mtime) (
                bind_some _ _ (read_u64-append s.src_inode _ h.src_inode) (
                  bind_some _ _ (read_u64-append s.bytes_written _ h.bytes_written) (
                    bind_some _ _ (read_u32-append (length s.block_hashes) _ h.block_hashes.1) (
                      bind_some _ _ (read_hashes s.block_hashes _ h.block_hashes.0) (
                        bind_some _ _ (read_src_hash-append s.src_hash _ h.src_hash) (
                          bind_some _ _ (read_u64-append s.created_at _ h.created_at) (
                            bind_some _ _ (read_u64-append s.updated_at [] h.updated_at)
                              refl)))))))))))))

read_payload-write_payload :
    (s : Session) → IsSession s → read_payload (write_payload s) ≡ some (s, [])
unfolding read_payload write_payload
read_payload-write_payload s h =
    bind_some _ _ (take_bytes-append 4 session_magic (session_version ∷ write_fields s) refl) (
      rw (bytes_eq_refl session_magic) (
        bind_some read_u8 _ (read_u8-append session_version (write_fields s))
          (rw append-nil at (read_fields-write_fields s h))))

module _ (blake3 : Blake3) where
  first_eight-size : (text : Bytes) → length (first_eight (blake3.hash text)) ≡ 8
  unfolding first_eight
  first_eight-size text =
      length-take_of_le 8 (blake3.hash text) (omega (arith, (blake3.digest text).size))

  split_checksum :
      (text : Bytes)
      → (length (text ++ first_eight (blake3.hash text)) ≡ length text + 8)
        × (split_at?
              (length (text ++ first_eight (blake3.hash text)) - 8)
              (text ++ first_eight (blake3.hash text))
            ≡ some (text, first_eight (blake3.hash text)))
  split_checksum text = (
    omega (arith, length-append text (first_eight (blake3.hash text)), first_eight-size text),
    split_at?-append text _ _
        (omega (arith, length-append text (first_eight (blake3.hash text)), first_eight-size text)),
  )

  checked-payload :
      (s : Session)
      → IsSession s
      → checked blake3 (some (write_payload s, first_eight (blake3.hash (write_payload s))))
        ≡ some s
  unfolding checked session_of
  checked-payload s h =
      rw (bytes_eq_refl (first_eight (blake3.hash (write_payload s))))
        (rw (read_payload-write_payload s h))

  -- A session whose fields are values of their Rust types, and whose lengths fit a `u32`, comes
  -- back from its serialization as it was.
  pub deserialize-serialize :
      (s : Session) → IsSession s → deserialize blake3 (serialize blake3 s) ≡ some s
  unfolding deserialize serialize
  deserialize-serialize s h =
      let (size, cut) = split_checksum (write_payload s) in
      rw (le→ltb (length (serialize blake3 s)) 8 (omega (arith, size)))
        (rw cut (checked-payload s h))
