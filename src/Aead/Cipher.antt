-- ===== src/Aead/Cipher.antt =====
-- What src/core/protocol_aead.rs relies on of `ring`'s AES-256-GCM with empty associated data.
use bcmr.Prelude.{ℕ, ◌+◌, ◌≤◌, ◌≡◌, Option, some, length}
use bcmr.Bytes.Word.{Bytes}

-- `new_key` is `LessSafeKey::new(UnboundKey::new(..)?)`, `seal` is `seal_in_place_append_tag` and
-- `unseal` is `open_in_place`, each with the key, the nonce and a text.
pub record Aead : Type 1 where
  pub Key : Type 0
  pub new_key : Bytes → Option Key
  pub seal : Key → Bytes → Bytes → Option Bytes
  pub unseal : Key → Bytes → Bytes → Option Bytes

-- The documented behaviour: a key has 32 bytes; a text that is not too long is sealed, which adds a
-- tag of 16 bytes; what was sealed is opened under the same key and nonce.
pub record IsLawful (aead : Aead) (limit : ℕ) : Type 0 where
  pub key_size :
      (bytes : Bytes) → length bytes ≡ 32 → (k : aead.Key) × (aead.new_key bytes ≡ some k)
  pub seals :
      (k : aead.Key) (nonce text : Bytes)
      → length text ≤ limit
      → (c : Bytes) × (aead.seal k nonce text ≡ some c)
  pub sealed_size :
      (k : aead.Key) (nonce text c : Bytes)
      → aead.seal k nonce text ≡ some c
      → length c ≡ length text + 16
  pub opens :
      (k : aead.Key) (nonce text c : Bytes)
      → aead.seal k nonce text ≡ some c
      → aead.unseal k nonce c ≡ some text

-- The documented integrity: what is opened was sealed under the same key and nonce.
pub record IsAuthentic (aead : Aead) : Type 0 where
  pub forged :
      (k : aead.Key) (nonce text c : Bytes)
      → aead.unseal k nonce c ≡ some text
      → aead.seal k nonce text ≡ some c
