-- ===== src/Aead/Nonce.antt =====
-- Nonces are not used twice, and counters move only with the cipher.
use bcmr.Prelude.{ℕ, ◌+◌, ◌-◌, ◌%◌, ◌^◌, ◌≡◌, ◌≢◌, refl, sym, ap, ◌∙◌, arith}
use bcmr.Prelude.{some, Option-cases, inl, inr, ◌⊎◌}
use bcmr.Prelude.{[], ◌∷◌, ◌++◌, length, split_at?, split_at?-append}
use bcmr.Bytes.Word.{
  Bytes, IsU64, to_le_bytes, from_le_bytes, length-to_le_bytes, from_le_bytes-to_le_bytes,
}
use bcmr.Errors.{Result, BcmrError, ◌>>=◌, ok, err}
use bcmr.Protocol.Message.{Message}
use bcmr.Protocol.Codec.{encode_message, decode_message}
use bcmr.Aead.Cipher.{Aead, IsAuthentic}
use bcmr.Aead.{Direction, client_to_server, server_to_client, direction_byte, make_nonce}
use bcmr.Aead.{advance, sealed_frame, opened, decoded}
use bcmr.Aead.{seal_message, encrypt_message, decrypt_message}

direction_byte-injective : (d e : Direction) → direction_byte d ≡ direction_byte e → d ≡ e
direction_byte-injective client_to_server client_to_server h = refl
direction_byte-injective client_to_server server_to_client h = absurd (omega arith)
direction_byte-injective server_to_client client_to_server h = absurd (omega arith)
direction_byte-injective server_to_client server_to_client h = refl

counter_bytes : (c : ℕ) (z : Bytes) → split_at? 8 (to_le_bytes 8 c ++ z) ≡ some (to_le_bytes 8 c, z)
counter_bytes c z = split_at?-append (to_le_bytes 8 c) z 8 (length-to_le_bytes 8 c)

-- Two nonces are the same only for the same direction and the same counter.
pub make_nonce-injective :
    (d e : Direction) (c k : ℕ)
    → IsU64 c
    → IsU64 k
    → make_nonce d c ≡ make_nonce e k
    → (d ≡ e) × (c ≡ k)
unfolding make_nonce
make_nonce-injective d e c k hc hk h =
    let pad : Bytes = 0 ∷ 0 ∷ 0 ∷ [] in
    let tails : to_le_bytes 8 c ++ pad ≡ to_le_bytes 8 k ++ pad = cc in
    let words : to_le_bytes 8 c ≡ to_le_bytes 8 k = cc (counter_bytes c pad, counter_bytes k pad) in
    (
      direction_byte-injective d e (cc),
      sym (from_le_bytes-to_le_bytes 8 c hc)
          ∙ ap from_le_bytes words
          ∙ from_le_bytes-to_le_bytes 8 k hk,
    )

advance_cases : (c c' : ℕ) → advance c ≡ (ok tt, c') → (c' ≡ c + 1) × (c ≢ 2 ^ 64 - 1)
unfolding advance
advance_cases c c' e = ground arith

advance-err : (c c' : ℕ) (x : BcmrError) → advance c ≡ (err x, c') → c' ≡ c
unfolding advance
advance-err c c' x e = ground arith

module _ (aead : Aead) (m : Message) (key : aead.Key) (dir : Direction) (c c' : ℕ) where
  open aead use {seal, unseal}

  -- What is known of a call by its result.
  pub encrypt_message-counter :
      ((frame : Bytes)
        → encrypt_message aead m key dir c ≡ (ok frame, c')
        → (sealed : Bytes) × (seal key (make_nonce dir c) (encode_message m) ≡ some sealed)
          × (frame ≡ to_le_bytes 4 (length sealed % 2 ^ 32) ++ sealed)
          × (c' ≡ c + 1)
          × (c ≢ 2 ^ 64 - 1))
      × ((x : BcmrError) → encrypt_message aead m key dir c ≡ (err x, c') → c' ≡ c)
  unfolding encrypt_message seal_message sealed_frame advance ◌>>=◌
  encrypt_message-counter = (
    λ frame e. elim (Option-cases (seal key (make_nonce dir c) (encode_message m))) [
      | inl refused ↦ absurd (ground (arith, refused))
      | inr (sealed, got) ↦
          (sealed, got, ground (arith, got), ground (arith, got), ground (arith, got))
    ],
    λ x e. ground arith,
  )

  -- A message is returned only where the ciphertext was sealed under this key, direction and
  -- counter from an encoding of the message, and then the counter goes up by one.
  pub decrypt_message-authentic :
      IsAuthentic aead
      → (ct : Bytes) → decrypt_message aead ct key dir c ≡ (ok m, c')
      → (text : Bytes) × (seal key (make_nonce dir c) text ≡ some ct)
        × (decode_message text ≡ some m)
        × (c' ≡ c + 1)
  unfolding decrypt_message opened decoded advance ◌>>=◌
  decrypt_message-authentic authentic ct e =
      elim (Option-cases (unseal key (make_nonce dir c) ct)) [
        | inl refused ↦ ground (arith, refused)
        | inr (text, got) ↦ (
          text,
          authentic.forged key (make_nonce dir c) text ct got,
          ground (arith, got),
          ground (arith, got),
        )
      ]

module _ (aead : Aead) (m : Message) (key : aead.Key) (dir : Direction) (c : ℕ) where
  open aead use {seal, unseal}

  -- A call of `encrypt_message` either returns the message, sealed under the nonce of the counter
  -- and behind its length, and the counter goes up by one within 64 bits; or it returns an error
  -- and the counter stays.
  pub encrypt_message_cases :
      let (r, c') = encrypt_message aead m key dir c in
      ((sealed : Bytes) × (seal key (make_nonce dir c) (encode_message m) ≡ some sealed)
        × (r ≡ ok (to_le_bytes 4 (length sealed % 2 ^ 32) ++ sealed))
        × (c' ≡ c + 1)
        × (c ≢ 2 ^ 64 - 1))
      ⊎ ((x : BcmrError) × (r ≡ err x) × (c' ≡ c))
  encrypt_message_cases = go (encrypt_message aead m key dir c) refl
    where
      go :
          (p : Result Bytes × ℕ)
          → encrypt_message aead m key dir c ≡ p
          → ((sealed : Bytes) × (seal key (make_nonce dir c) (encode_message m) ≡ some sealed)
              × (p.0 ≡ ok (to_le_bytes 4 (length sealed % 2 ^ 32) ++ sealed))
              × (p.1 ≡ c + 1)
              × (c ≢ 2 ^ 64 - 1))
            ⊎ ((x : BcmrError) × (p.0 ≡ err x) × (p.1 ≡ c))
      go (ok frame, c') e =
          let (sealed, got, cut, up, below) =
            (encrypt_message-counter aead m key dir c c').0 frame e in
          inl (sealed, got, ap ok cut, up, below)
      go (err x, c') e = inr (x, refl, (encrypt_message-counter aead m key dir c c').1 x e)
