-- ===== src/Protocol/Codec/RoundTrip.antt =====
-- Decoding what `encode_message` wrote.
use bcmr.Prelude.{ℕ, ◌%◌, ◌^◌, ◌≡◌, refl, arith}
use bcmr.Prelude.{some, List, [], ◌∷◌, ◌++◌, append_assoc, append-nil, length, All}
use bcmr.Bytes.Word.{Bytes, IsU32, IsArray}
use bcmr.Protocol.Message.{Message, IsMessage, hello, list, stat, hash, get, put, mkdir, resume}
use bcmr.Protocol.Message.{done, open_direct_channel, auth_hello, put_chunked, get_chunked}
use bcmr.Protocol.Message.{truncate, welcome, ok, error, data_plain, data_compressed}
use bcmr.Protocol.Message.{have_blocks, missing_blocks, stat_response, hash_response}
use bcmr.Protocol.Message.{list_response, resume_response, direct_channel_ready, auth_challenge}
use bcmr.Protocol.Message.{IsEntry}
use bcmr.Protocol.Writer.{bool_byte, write_u32_le, write_list_entry, write_all}
use bcmr.Protocol.Reader.{read_u8, read_count, read_u8_or_zero}
use bcmr.Protocol.Reader.{read_list_entry}
use bcmr.Protocol.Reader.Laws.{bind_some, take_bytes-append, length_bytes, read_u32_le-write}
use bcmr.Protocol.Reader.Laws.{read_u64_le-write, read_i64_le-write, read_string-write}
use bcmr.Protocol.Reader.Laws.{read_bytes-write, read_fixed-append, read_opt_string-write}
use bcmr.Protocol.Reader.Laws.{read_opt_u64-write, read_u8-write, bool_byte-read}
use bcmr.Protocol.Reader.Laws.{read_list_entry-write, read_count-write}
use bcmr.Protocol.Codec.{type_byte, encode_body, encode_payload, encode_message}
use bcmr.Protocol.Codec.{decode_body, decode_payload, frame_payload, decode_message}

-- An array read byte by byte.
read_array-append :
    (bs rest : Bytes) (n : ℕ) → length bs ≡ n → read_count n read_u8 (bs ++ rest) ≡ some (bs, rest)
unfolding read_count read_u8
read_array-append [] rest n h = rw (← h)
read_array-append (b ∷ bs) rest n h = rw (← h) (rw (read_array-append bs rest (length bs) refl))

read_hashes :
    (hashes : List Bytes) (rest : Bytes)
    → All (IsArray 32) hashes
    → read_count (length hashes) (read_count 32 read_u8) (write_all (λ h. h) hashes ++ rest)
      ≡ some (hashes, rest)
read_hashes =
    read_count-write (read_count 32 read_u8) (λ h. h) (IsArray 32)
      λ h rest p. read_array-append h rest 32 p.size

read_entries :
    (entries : _) (rest : Bytes)
    → All IsEntry entries
    → read_count (length entries) read_list_entry (write_all write_list_entry entries ++ rest)
      ≡ some (entries, rest)
read_entries = read_count-write read_list_entry write_list_entry IsEntry read_list_entry-write

caps_byte : (v : ℕ) (rest : Bytes) → read_u8_or_zero (v ∷ rest) ≡ some (v, rest)
unfolding read_u8_or_zero
caps_byte v rest = refl

-- The body of a message, whatever follows it.
pub decode_body-encode_body :
    (m : Message) (rest : Bytes)
    → IsMessage m
    → decode_body (type_byte m) (encode_body m ++ rest) ≡ some (m, rest)
unfolding type_byte encode_body decode_body
decode_body-encode_body (hello v caps) rest h =
    bind_some _ _ (read_u8-write v (caps ∷ rest)) (bind_some _ _ (caps_byte caps rest) refl)
decode_body-encode_body (list path) rest h = bind_some _ _ (read_string-write path rest h) refl
decode_body-encode_body (stat path) rest h = bind_some _ _ (read_string-write path rest h) refl
decode_body-encode_body (hash path offset limit) rest (hp, ho, hl) = simp append_assoc (
    bind_some _ _ (read_string-write path _ hp) (
      bind_some _ _ (read_u64_le-write offset _ ho)
        (bind_some _ _ (read_opt_u64-write limit rest hl) refl)))
decode_body-encode_body (get path offset) rest (hp, ho) = simp append_assoc (
    bind_some _ _ (read_string-write path _ hp)
      (bind_some _ _ (read_u64_le-write offset rest ho) refl))
decode_body-encode_body (put path size offset) rest (hp, hs, ho) = simp append_assoc (
    bind_some _ _ (read_string-write path _ hp) (
      bind_some _ _ (read_u64_le-write size _ hs)
        (bind_some _ _ (read_u64_le-write offset rest ho) refl)))
decode_body-encode_body (mkdir path) rest h = bind_some _ _ (read_string-write path rest h) refl
decode_body-encode_body (resume path) rest h = bind_some _ _ (read_string-write path rest h) refl
decode_body-encode_body done rest h = refl
decode_body-encode_body open_direct_channel rest h = refl
decode_body-encode_body (auth_hello mac) rest h =
    bind_some _ _ (read_fixed-append 32 mac rest h) refl
decode_body-encode_body (put_chunked path offset len) rest (hp, ho, hl) = simp append_assoc (
    bind_some _ _ (read_string-write path _ hp) (
      bind_some _ _ (read_u64_le-write offset _ ho)
        (bind_some _ _ (read_u64_le-write len rest hl) refl)))
decode_body-encode_body (get_chunked path offset len) rest (hp, ho, hl) = simp append_assoc (
    bind_some _ _ (read_string-write path _ hp) (
      bind_some _ _ (read_u64_le-write offset _ ho)
        (bind_some _ _ (read_u64_le-write len rest hl) refl)))
decode_body-encode_body (truncate path size) rest (hp, hs) = simp append_assoc (
    bind_some _ _ (read_string-write path _ hp)
      (bind_some _ _ (read_u64_le-write size rest hs) refl))
decode_body-encode_body (welcome v caps) rest h =
    bind_some _ _ (read_u8-write v (caps ∷ rest)) (bind_some _ _ (caps_byte caps rest) refl)
decode_body-encode_body (ok o) rest h = bind_some _ _ (read_opt_string-write o rest h) refl
decode_body-encode_body (error message) rest h =
    bind_some _ _ (read_string-write message rest h) refl
decode_body-encode_body (data_plain payload) rest h =
    bind_some _ _ (read_bytes-write payload rest h) refl
decode_body-encode_body (data_compressed algo size payload) rest (ha, hs, hp) = simp append_assoc (
    bind_some _ _ (read_u8-write algo _) (
      bind_some _ _ (read_u32_le-write size _ hs)
        (bind_some _ _ (read_bytes-write payload rest hp) refl)))
decode_body-encode_body (have_blocks size hashes) rest (hs, hn, hh) = simp append_assoc (
    bind_some _ _ (read_u32_le-write size _ hs) (
      bind_some _ _ (length_bytes (length hashes) _ hn)
        (bind_some _ _ (read_hashes hashes rest hh) refl)))
decode_body-encode_body (missing_blocks bits) rest h =
    bind_some _ _ (read_bytes-write bits rest h) refl
decode_body-encode_body (stat_response size mtime is_dir) rest (hs, hm) = simp append_assoc (
    bind_some _ _ (read_u64_le-write size _ hs) (
      bind_some _ _ (read_i64_le-write mtime _ hm)
        (bind_some _ _ (read_u8-write (bool_byte is_dir) rest) (rw (bool_byte-read is_dir)))))
decode_body-encode_body (hash_response s) rest h = bind_some _ _ (read_string-write s rest h) refl
decode_body-encode_body (list_response entries) rest (hn, he) = simp append_assoc (
    bind_some _ _ (length_bytes (length entries) _ hn)
      (bind_some _ _ (read_entries entries rest he) refl))
decode_body-encode_body (resume_response size o) rest (hs, ho) = simp append_assoc (
    bind_some _ _ (read_u64_le-write size _ hs)
      (bind_some _ _ (read_opt_string-write o rest ho) refl))
decode_body-encode_body (direct_channel_ready addr key) rest (ha, hk) = simp append_assoc (
    bind_some _ _ (read_string-write addr _ ha)
      (bind_some _ _ (read_fixed-append 32 key rest hk) refl))
decode_body-encode_body (auth_challenge nonce) rest h =
    bind_some _ _ (read_fixed-append 32 nonce rest h) refl

pub decode_payload-encode_payload :
    (m : Message) (rest : Bytes)
    → IsMessage m
    → decode_payload (encode_payload m ++ rest) ≡ some (m, rest)
unfolding decode_payload encode_payload
decode_payload-encode_payload m rest h =
    bind_some _ _ (read_u8-write (type_byte m) (encode_body m ++ rest))
      (decode_body-encode_body m rest h)

pub frame_payload-write :
    (payload rest : Bytes)
    → IsU32 (length payload)
    → frame_payload (write_u32_le (length payload % 2 ^ 32) ++ (payload ++ rest))
      ≡ some (payload, rest)
unfolding frame_payload
frame_payload-write payload rest fits =
    bind_some _ _ (length_bytes (length payload) (payload ++ rest) fits)
      (take_bytes-append (length payload) payload rest refl)

pub decode_message-eq_some :
    (frame : Bytes) {payload behind left : Bytes} {m : Message}
    → frame_payload frame ≡ some (payload, behind)
    → decode_payload payload ≡ some (m, left)
    → decode_message frame ≡ some m
unfolding decode_message
decode_message-eq_some frame e k = ground (arith, e, k)

-- A message whose fields are values of their Rust types, and whose payload's length fits a `u32`,
-- is decoded from its encoding, whatever bytes follow the frame.
pub decode_message-encode_message :
    (m : Message) (rest : Bytes)
    → IsMessage m
    → IsU32 (length (encode_payload m))
    → decode_message (encode_message m ++ rest) ≡ some m
unfolding encode_message
decode_message-encode_message m rest h fits = rw append_assoc (
    decode_message-eq_some _ (frame_payload-write (encode_payload m) rest fits)
      (rw append-nil at (decode_payload-encode_payload m [] h)))
