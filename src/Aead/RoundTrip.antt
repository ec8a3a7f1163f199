-- ===== src/Aead/RoundTrip.antt =====
-- What is encrypted under a counter is decrypted under the same counter.
use bcmr.Prelude.{ℕ, ◌+◌, ◌%◌, ◌^◌, ◌≤◌, ◌<◌, ◌≡◌, refl, arith, le→ltb}
use bcmr.Prelude.{some, [], ◌++◌, append-nil}
use bcmr.Prelude.{length, length-append}
use bcmr.Bytes.Word.{Bytes, to_le_bytes}
use bcmr.Errors.{ok, bind_ok}
use bcmr.Protocol.Message.{Message, IsMessage}
use bcmr.Protocol.Codec.{encode_payload, encode_message, decode_message}
use bcmr.Protocol.Codec.RoundTrip.{decode_message-encode_message}
use bcmr.Protocol.Writer.{write_u32_le}
use bcmr.Aead.Cipher.{Aead, IsLawful}
use bcmr.Aead.{Direction, make_nonce, max_frame_len, tag_len, advance, decoded}
use bcmr.Aead.{sealed_frame, opened, seal_message, encrypt_message, decrypt_message}

-- A message that fits an encrypted frame, and a counter that is not used up.
pub record IsSealable (m : Message) : Type 0 where
  pub valid : IsMessage m
  pub small : length (encode_message m) ≤ max_frame_len

abbrev pub IsFresh : ℕ → Type 0
IsFresh counter = counter + 1 < 2 ^ 64

advance-fresh : (counter : ℕ) → IsFresh counter → advance counter ≡ (ok tt, counter + 1)
unfolding advance
advance-fresh counter h = ground arith

decode_message-whole : (m : Message) → IsSealable m → decode_message (encode_message m) ≡ some m
decode_message-whole m h = rw append-nil at (decode_message-encode_message m [] h.valid fits)
  where
    fits : length (encode_payload m) < 2 ^ 32
    fits =
        unfold encode_message in
        omega (
          arith,
          h.small,
          length-append (write_u32_le (length (encode_payload m) % 2 ^ 32)) (encode_payload m),
        )

abbrev pub frame : Bytes → Bytes
frame sealed = to_le_bytes 4 (length sealed % 2 ^ 32) ++ sealed

module _ (aead : Aead) (lawful : IsLawful aead max_frame_len) where
  open aead use {Key, seal, unseal}

  module _ (m : Message) (key : Key) (dir : Direction) (counter : ℕ) where
    encrypt_message-sealed :
        (sealed : Bytes)
        → IsSealable m
        → IsFresh counter
        → seal key (make_nonce dir counter) (encode_message m) ≡ some sealed
        → encrypt_message aead m key dir counter ≡ (ok (frame sealed), counter + 1)
    unfolding encrypt_message seal_message sealed_frame
    encrypt_message-sealed sealed h fresh e =
        rw (le→ltb _ _ h.small) (rw e (bind_ok _ _ (advance-fresh counter fresh) refl))

    decrypt_message-sealed :
        (sealed : Bytes)
        → IsSealable m
        → IsFresh counter
        → seal key (make_nonce dir counter) (encode_message m) ≡ some sealed
        → decrypt_message aead sealed key dir counter ≡ (ok m, counter + 1)
    unfolding decrypt_message opened decoded
    decrypt_message-sealed sealed h fresh e =
        rw (le→ltb (length sealed) tag_len long, lawful.opens key _ _ sealed e)
          (bind_ok _ _ (advance-fresh counter fresh) (rw (decode_message-whole m h)))
      where
        long : tag_len ≤ length sealed
        long = omega (arith, lawful.sealed_size key _ _ sealed e)

  -- A message that fits is encrypted under a counter that is not used up, and its frame is
  -- decrypted under the same counter; both counters go up by one.
  pub encrypt_message-decrypt :
      (m : Message) (key : Key) (dir : Direction) (counter : ℕ)
      → IsSealable m
      → IsFresh counter
      → (sealed : Bytes) × (encrypt_message aead m key dir counter
          ≡ (ok (frame sealed), counter + 1))
        × (length sealed ≡ length (encode_message m) + 16)
        × (decrypt_message aead sealed key dir counter ≡ (ok m, counter + 1))
  encrypt_message-decrypt m key dir counter h fresh =
      let (sealed, e) = lawful.seals key (make_nonce dir counter) (encode_message m) h.small in
      (
        sealed,
        encrypt_message-sealed m key dir counter sealed h fresh e,
        lawful.sealed_size key (make_nonce dir counter) (encode_message m) sealed e,
        decrypt_message-sealed m key dir counter sealed h fresh e,
      )
