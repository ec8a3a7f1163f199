-- ===== src/Compress.antt =====
-- src/core/compress.rs, and `CompressionAlgo` of src/core/protocol.rs. The compressors of the crates
-- lz4_flex and zstd are parameters.
use bcmr.Prelude.{ℕ, ◌*◌, ◌/◌, ◌%◌, ◌^◌, ◌<◌, ◌≤◌, ◌≡◌, ◌⊎◌, inl, inr, refl, arith, ltb, ltb→le}
use bcmr.Prelude.{◌==◌, if◌then◌else◌, Bool, true, ◌&&◌, Bool-cases}
use bcmr.Prelude.{Option, none, some, [], ◌∷◌, length}
use mathlib.Core.Path.{subst}
use bcmr.Bytes.Word.{Bytes}
use bcmr.Errors.{Result, ok, err, io, invalid_data}
use bcmr.Protocol.Message.{Message, data_plain, data_compressed}

pub data CompressionAlgo : Type 0 where
  uncompressed lz4 zstd : CompressionAlgo

abbrev pub cap_lz4 : ℕ
cap_lz4 = 0x01

abbrev pub cap_zstd : ℕ
cap_zstd = 0x02

unfoldable pub from_byte : ℕ → CompressionAlgo
from_byte b = if b == 1 then lz4 else if b == 2 then zstd else uncompressed

unfoldable pub to_byte : CompressionAlgo → ℕ
to_byte uncompressed = 0
to_byte lz4 = 1
to_byte zstd = 2

-- `caps & cap != 0`, for a `cap` that is a power of two.
unfoldable pub has_cap : (caps cap : ℕ) → Bool
has_cap caps cap = caps / cap % 2 == 1

-- A bit of `local & remote` is set where it is set in both.
unfoldable pub negotiate : (here there : ℕ) → CompressionAlgo
negotiate here there =
    if has_cap here cap_zstd && has_cap there cap_zstd
    then zstd
    else if has_cap here cap_lz4 && has_cap there cap_lz4
    then lz4
    else uncompressed

-- `lz4_flex::compress` and `decompress`, `zstd::bulk::compress` at level 3 and `decompress`.
pub record Codecs : Type 0 where
  pub lz4_compress : Bytes → Bytes
  pub lz4_decompress : Bytes → ℕ → Option Bytes
  pub zstd_compress : Bytes → Option Bytes
  pub zstd_decompress : Bytes → ℕ → Option Bytes

-- The documented behaviour: what was compressed is decompressed, given its length.
pub record IsLossless (codecs : Codecs) : Type 0 where
  pub by_lz4 :
      (raw : Bytes) → codecs.lz4_decompress (codecs.lz4_compress raw) (length raw) ≡ some raw
  pub by_zstd :
      (raw encoded : Bytes)
      → codecs.zstd_compress raw ≡ some encoded
      → codecs.zstd_decompress encoded (length raw) ≡ some raw

-- The ratio 0.95 of the source is a fraction here; for blocks below 2 ^ 40 bytes the comparison of
-- floating-point numbers has the same result.
unfoldable pub framed : CompressionAlgo → Bytes → Option Bytes → Message
framed algo raw none = data_plain raw
framed algo raw (some encoded) =
    if ltb (19 * length raw) (20 * length encoded)
    then data_plain raw
    else data_compressed (to_byte algo) (length raw % 2 ^ 32) encoded

unfoldable pub decoded : Option Bytes → Result Bytes
decoded none = err (io invalid_data)
decoded (some raw) = ok raw

from_byte-to_byte : (a : CompressionAlgo) → from_byte (to_byte a) ≡ a
unfolding from_byte to_byte
from_byte-to_byte uncompressed = refl
from_byte-to_byte lz4 = refl
from_byte-to_byte zstd = refl

module _ (codecs : Codecs) where
  unfoldable pub encode_block : CompressionAlgo → Bytes → Message
  encode_block uncompressed raw = data_plain raw
  encode_block _ [] = data_plain []
  encode_block lz4 raw = framed lz4 raw (some (codecs.lz4_compress raw))
  encode_block zstd raw = framed zstd raw (codecs.zstd_compress raw)

  decode_as : CompressionAlgo → ℕ → Bytes → Result Bytes
  decode_as lz4 original_size compressed = decoded (codecs.lz4_decompress compressed original_size)
  decode_as zstd original_size compressed =
      decoded (codecs.zstd_decompress compressed original_size)
  decode_as uncompressed original_size compressed = err (io invalid_data)

  unfoldable pub decode_block : (algo_byte original_size : ℕ) → Bytes → Result Bytes
  unfolding decode_as
  decode_block algo_byte original_size compressed =
      decode_as (from_byte algo_byte) original_size compressed

  -- What a block is sent as.
  abbrev pub SentAs : Bytes → Message → Type 0
  SentAs raw msg =
      (msg ≡ data_plain raw)
      ⊎ ((algo size : ℕ) × (payload : Bytes) × (msg ≡ data_compressed algo size payload)
          × (decode_block algo size payload ≡ ok raw)
          × (20 * length payload ≤ 19 * length raw))

  framed_cases :
      (algo : CompressionAlgo) (raw : Bytes) (o : Option Bytes)
      → length raw < 2 ^ 32
      → ((encoded : Bytes) → o ≡ some encoded → decode_as algo (length raw) encoded ≡ ok raw)
      → SentAs raw (framed algo raw o)
  unfolding framed decode_block
  framed_cases algo raw none small h = inl refl
  framed_cases algo raw (some encoded) small h =
      elim (Bool-cases (ltb (19 * length raw) (20 * length encoded))) [
        | inl large ↦ inl (rw large)
        | inr worth ↦ inr (
          to_byte algo,
          length raw % 2 ^ 32,
          encoded,
          rw worth refl,
          back algo (h encoded refl),
          ltb→le _ _ worth,
        )
      ]
    where
      back :
          (a : CompressionAlgo)
          → decode_as a (length raw) encoded ≡ ok raw
          → decode_as (from_byte (to_byte a)) (length raw % 2 ^ 32) encoded ≡ ok raw
      back a e =
          let same : length raw % 2 ^ 32 ≡ length raw = omega arith in
          rw (same, from_byte-to_byte a) e

  -- A block that is shorter than 4 GiB is sent as it is, or compressed to at most 95 % of its length;
  -- then the receiver decompresses it to the same block.
  pub encode_block_cases :
      IsLossless codecs
      → (algo : CompressionAlgo) (raw : Bytes) → length raw < 2 ^ 32
      → SentAs raw (encode_block algo raw)
  unfolding encode_block decode_as decoded
  encode_block_cases lossless uncompressed raw small = inl refl
  encode_block_cases lossless lz4 [] small = inl refl
  encode_block_cases lossless zstd [] small = inl refl
  encode_block_cases lossless lz4 (b ∷ bs) small = framed_cases lz4 (b ∷ bs) _ small (λ encoded e.
      let same : codecs.lz4_compress (b ∷ bs) ≡ encoded = cc in
      subst (λ x. decoded (codecs.lz4_decompress x (length (b ∷ bs))) ≡ ok (b ∷ bs)) same
        (rw (lossless.by_lz4 (b ∷ bs)) refl))
  encode_block_cases lossless zstd (b ∷ bs) small =
      framed_cases zstd (b ∷ bs) _ small
        (λ encoded e. rw (lossless.by_zstd (b ∷ bs) encoded e) refl)

-- Both sides come to the same algorithm, whichever computes it, and they both announced it.
pub negotiate_lem :
    (here there : ℕ)
    → (negotiate here there ≡ negotiate there here)
      × ((negotiate here there ≡ uncompressed)
          ⊎ ((negotiate here there ≡ lz4)
              × (has_cap here cap_lz4 ≡ true)
              × (has_cap there cap_lz4 ≡ true))
          ⊎ ((negotiate here there ≡ zstd)
              × (has_cap here cap_zstd ≡ true)
              × (has_cap there cap_zstd ≡ true)))
unfolding negotiate
negotiate_lem here there = (ground arith, grind arith)
