-- ===== src/Aead/Delivery.antt =====
-- Encrypted messages over a connection.
use bcmr.Prelude.{ℕ, ◌+◌, ◌%◌, ◌/◌, ◌^◌, ◌≤◌, ◌≡◌, refl, ap, ◌∙◌, arith, le→ltb}
use bcmr.Prelude.{Bool, false, Option, some, ◌∷◌, ◌++◌, append_assoc}
use bcmr.Prelude.{length}
use bcmr.Bytes.Word.{
  Bytes, to_le_bytes, from_le_bytes, from_le_bytes-to_le_bytes, length-to_le_bytes,
}
use bcmr.Errors.{Result, ok, Exec, bind_ok}
use bcmr.Protocol.Message.{Message}
use bcmr.Protocol.Stream.{Stream, read_exact, write_all}
use bcmr.Protocol.Stream.Delivery.{stream, read_exact-append}
use bcmr.Aead.Cipher.{Aead, IsLawful}
use bcmr.Aead.{Direction, max_frame_len, tag_len, read_one, on_stream, on_counter}
use bcmr.Aead.{encrypt_message, decrypt_message}
use bcmr.Aead.{read_body, after_first, read_encrypted_message, write_encrypted_message}
use bcmr.Aead.RoundTrip.{IsSealable, IsFresh, frame, encrypt_message-decrypt}

on_stream-ok :
    {S A : Type 0} (m : Exec S A) (c : ℕ) {s s' : S} {a : A}
    → m s ≡ (ok a, s')
    → on_stream m (s, c) ≡ (ok a, (s', c))
on_stream-ok {S} {A} m c e = ap (λ (p : Result A × S). (p.0, (p.1, c))) e

on_counter-ok :
    {S A : Type 0} (m : Exec ℕ A) (s : S) {c c' : ℕ} {a : A}
    → m c ≡ (ok a, c')
    → on_counter m (s, c) ≡ (ok a, (s, c'))
on_counter-ok {S} {A} m s e = ap (λ (p : Result A × ℕ). (p.0, (s, p.1))) e

module _ (aead : Aead) (m : Message) (key : aead.Key) (dir : Direction) (c : ℕ) where
  write-ok :
      (bytes out : Bytes)
      → encrypt_message aead m key dir c ≡ (ok bytes, c + 1)
      → write_encrypted_message aead m key dir (record { sent = out; closed = false }, c)
        ≡ (ok tt, (record { sent = out ++ bytes; closed = false }, c + 1))
  unfolding write_encrypted_message write_all
  write-ok bytes out e = bind_ok _ _ (on_counter-ok (encrypt_message aead m key dir) _ e) refl

  body-ok :
      (sealed rest : Bytes) (broken : Bool)
      → tag_len ≤ length sealed
      → length sealed ≤ max_frame_len + tag_len
      → decrypt_message aead sealed key dir c ≡ (ok m, c + 1)
      → read_body aead key dir
          (to_le_bytes 4 (length sealed % 2 ^ 32))
          (stream (sealed ++ rest) broken, c)
        ≡ (ok (some m), (stream rest broken, c + 1))
  unfolding read_body
  body-ok sealed rest broken lo hi e =
      rw (value, le→ltb (length sealed) tag_len lo, le→ltb _ _ hi)
        (bind_ok _ _
          (on_stream-ok (read_exact (length sealed)) c
            (read_exact-append (length sealed) sealed rest broken refl))
          (bind_ok _ _ (on_counter-ok (decrypt_message aead sealed key dir) _ e) refl))
    where
      value : from_le_bytes (to_le_bytes 4 (length sealed % 2 ^ 32)) ≡ length sealed
      value = from_le_bytes-to_le_bytes 4 (length sealed % 2 ^ 32) (omega arith) ∙ omega arith

  read_one-ok :
      (b : ℕ) (bs : Bytes) (broken : Bool)
      → read_one (stream (b ∷ bs) broken) ≡ (ok (some b), stream bs broken)
  unfolding read_one
  read_one-ok b bs broken = refl

  read_header :
      (b : ℕ) (others rest : Bytes) (broken : Bool) {r : Result (Option Message) × (Stream × ℕ)}
      → length others ≡ 3
      → read_body aead key dir (b ∷ others) (stream rest broken, c) ≡ r
      → read_encrypted_message aead key dir (stream (b ∷ (others ++ rest)) broken, c) ≡ r
  unfolding read_encrypted_message after_first
  read_header b others rest broken size k =
      bind_ok (on_stream read_one) (after_first aead key dir)
        (on_stream-ok read_one c (read_one-ok b (others ++ rest) broken))
        (bind_ok (on_stream (read_exact 3)) (λ o. read_body aead key dir (b ∷ o))
          (on_stream-ok (read_exact 3) c (read_exact-append 3 others rest broken size)) k)

  read-ok :
      (sealed rest : Bytes) (broken : Bool)
      → tag_len ≤ length sealed
      → length sealed ≤ max_frame_len + tag_len
      → decrypt_message aead sealed key dir c ≡ (ok m, c + 1)
      → read_encrypted_message aead key dir (stream (frame sealed ++ rest) broken, c)
        ≡ (ok (some m), (stream rest broken, c + 1))
  unfolding to_le_bytes
  read-ok sealed rest broken lo hi e = rw append_assoc (
      read_header (length sealed % 2 ^ 32 % 256) (to_le_bytes 3 (length sealed % 2 ^ 32 / 256))
        (sealed ++ rest) broken (length-to_le_bytes 3 (length sealed % 2 ^ 32 / 256))
        (body-ok sealed rest broken lo hi e))

module _ (aead : Aead) (lawful : IsLawful aead max_frame_len) where
  -- A message that fits, and that is written while the connection is open and the counter is not
  -- used up, adds one frame to what was sent. The peer that reads this frame with the same counter
  -- gets the message and goes on behind it, and both counters go up by one.
  pub write_encrypted_message-read :
      (m : Message) (key : aead.Key) (dir : Direction) (c : ℕ)
      → IsSealable m
      → IsFresh c
      → (bytes : Bytes) × ((out : Bytes)
          → write_encrypted_message aead m key dir (record { sent = out; closed = false }, c)
            ≡ (ok tt, (record { sent = out ++ bytes; closed = false }, c + 1)))
        × ((rest : Bytes) (broken : Bool)
            → read_encrypted_message aead key dir (stream (bytes ++ rest) broken, c)
              ≡ (ok (some m), (stream rest broken, c + 1)))
  write_encrypted_message-read m key dir c h fresh =
      let (sealed, sent, size, got) = encrypt_message-decrypt aead lawful m key dir c h fresh in
      (
        frame sealed,
        λ out. write-ok aead m key dir c (frame sealed) out sent,
        λ rest broken.
            read-ok aead m key dir c sealed rest broken (omega arith) (omega (arith, h.small)) got,
      )
