-- ===== src/Bytes/Digest.antt =====
-- The hash function BLAKE3, of the crate `blake3`: a parameter of what is modelled.
use bcmr.Bytes.Word.{Bytes, IsArray}

-- `hash` is `blake3::hash(..).as_bytes()`, and also what a `Hasher` that was updated with the parts
-- of a text in turn finalizes to. The documented behaviour is that a digest has 32 bytes.
pub record Blake3 : Type 0 where
  pub hash : Bytes → Bytes
  pub digest : (text : Bytes) → IsArray 32 (hash text)
