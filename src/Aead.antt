-- ===== src/Aead.antt =====
-- src/core/protocol_aead.rs: AES-256-GCM frames, with a counter for each direction in the nonce.
-- The cipher is that of the crate `ring`, and a parameter here.
pub mod Cipher
pub mod Nonce
pub mod RoundTrip
pub mod Delivery
pub mod Trace
use Prim.Native.Nat.{◌-◌}
use bcmr.Prelude.{ℕ, zero, suc, ◌+◌, ◌*◌, ◌%◌, ◌^◌, ltb, ◌==◌, if◌then◌else◌, ◌||◌, split_at?}
use bcmr.Prelude.{Bool, true, false, Option, none, some, List, [], ◌∷◌, ◌++◌, length}
use bcmr.Bytes.Word.{Bytes, to_le_bytes, from_le_bytes}
use bcmr.Errors.{
  Result, ok, err, io, other, invalid_input, crypto_failure, Exec, pure, raise, ◌>>=◌, ◌>>◌,
}
use bcmr.Protocol.Message.{Message}
use bcmr.Protocol.Codec.{encode_message, decode_message}
use bcmr.Protocol.Stream.{Stream, Sink, read_exact, write_all}
use bcmr.Aead.Cipher.{Aead}

abbrev pub max_frame_len : ℕ
max_frame_len = 16 * 1024 * 1024

abbrev pub tag_len : ℕ
tag_len = 16

pub data Direction : Type 0 where
  client_to_server server_to_client : Direction

abbrev pub direction_byte : Direction → ℕ
direction_byte client_to_server = 0x01
direction_byte server_to_client = 0x02

-- Twelve bytes: the direction, the counter, and three zeros.
unfoldable pub make_nonce : Direction → ℕ → Bytes
make_nonce dir counter = direction_byte dir ∷ (to_le_bytes 8 counter ++ (0 ∷ 0 ∷ 0 ∷ []))

-- `*counter = counter.checked_add(1).ok_or(..)?`
unfoldable pub advance : Exec ℕ (Unit {0})
advance counter =
    if counter == 2 ^ 64 - 1 then (err crypto_failure, counter) else (ok tt, counter + 1)

unfoldable pub decoded : Option Message → Exec ℕ Message
decoded none = raise invalid_input
decoded (some msg) = pure msg

-- What follows the call of the cipher; the state is the counter.
unfoldable pub sealed_frame : Option Bytes → Exec ℕ Bytes
sealed_frame none = raise crypto_failure
sealed_frame (some sealed) = do advance; pure (to_le_bytes 4 (length sealed % 2 ^ 32) ++ sealed)

unfoldable pub opened : Option Bytes → Exec ℕ Message
opened none = raise crypto_failure
opened (some plaintext) = do advance; decoded (decode_message plaintext)

-- One byte, or `none` at the end of the stream.
unfoldable pub read_one : Exec Stream (Option ℕ)
read_one s = elim s.bytes [
  | [] ↦ (if s.broken then err (io other) else ok none, s)
  | b ∷ bs ↦ (ok (some b), record s { bytes = bs })
]

-- The state of a reader or a writer is a stream and a counter; a step changes one of them.
abbrev pub on_stream : {S A : Type 0} → Exec S A → Exec (S × ℕ) A
on_stream m (s, counter) = let (r, s') = m s in (r, (s', counter))

abbrev pub on_counter : {S A : Type 0} → Exec ℕ A → Exec (S × ℕ) A
on_counter m (s, counter) = let (r, counter') = m counter in (r, (s, counter'))

module _ (aead : Aead) where
  open aead use {Key, new_key, seal, unseal}

  unfoldable pub key_from_bytes : Bytes → Result Key
  key_from_bytes bytes = elim (new_key bytes) [ none ↦ err invalid_input | some key ↦ ok key ]

  unfoldable pub seal_message : Key → Direction → Bytes → Exec ℕ Bytes
  seal_message key dir plaintext counter =
      sealed_frame (seal key (make_nonce dir counter) plaintext) counter

  unfoldable pub encrypt_message : Message → Key → Direction → Exec ℕ Bytes
  encrypt_message msg key dir =
      let plaintext = encode_message msg in
      if ltb max_frame_len (length plaintext)
      then raise invalid_input
      else seal_message key dir plaintext

  unfoldable pub decrypt_message : Bytes → Key → Direction → Exec ℕ Message
  decrypt_message ct_and_tag key dir counter =
      if ltb (length ct_and_tag) tag_len
      then (err crypto_failure, counter)
      else opened (unseal key (make_nonce dir counter) ct_and_tag) counter

  unfoldable pub read_body : Key → Direction → Bytes → Exec (Stream × ℕ) (Option Message)
  read_body key dir len_buf =
      let total_len = from_le_bytes len_buf in
      if ltb total_len tag_len || ltb (max_frame_len + tag_len) total_len
      then raise crypto_failure
      else do
        buf ← on_stream (read_exact total_len)
        msg ← on_counter (decrypt_message buf key dir)
        pure (some msg)

  unfoldable pub after_first : Key → Direction → Option ℕ → Exec (Stream × ℕ) (Option Message)
  after_first key dir none = pure none
  after_first key dir (some b) = do
    others ← on_stream (read_exact 3)
    read_body key dir (b ∷ others)

  unfoldable pub read_encrypted_message : Key → Direction → Exec (Stream × ℕ) (Option Message)
  read_encrypted_message key dir = do first ← on_stream read_one; after_first key dir first

  unfoldable pub write_encrypted_message : Message → Key → Direction → Exec (Sink × ℕ) (Unit {0})
  write_encrypted_message msg key dir = do
    frame ← on_counter (encrypt_message msg key dir)
    on_stream (write_all frame)
