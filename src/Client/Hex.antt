-- ===== src/Client/Hex.antt =====
-- `decode_hex32` of src/core/serve_client.rs: the digests that a server reports.
use bcmr.Prelude.{ℕ, ◌+◌, ◌-◌, ◌*◌, ◌/◌, ◌%◌, ◌<◌, ◌≡◌, refl, arith, leb, ◌==◌, if◌then◌else◌}
use bcmr.Prelude.{◌&&◌, not, [], ◌∷◌, length, All}
use bcmr.Bytes.Word.{Bytes, IsByte, IsArray}
use bcmr.Errors.{Result, ok, err, invalid_input}
use bcmr.Session.Store.{to_hex, hex_digit}

unfoldable pub hex_nibble : ℕ → Result ℕ
hex_nibble b =
    if leb b'0' b && leb b b'9'
    then ok (b - b'0')
    else if leb b'a' b && leb b b'f'
    then ok (b - b'a' + 10)
    else if leb b'A' b && leb b b'F'
    then ok (b - b'A' + 10)
    else err invalid_input

-- `(hi << 4) | lo`, in front of the bytes that follow.
unfoldable pub joined : Result ℕ → Result ℕ → Result Bytes → Result Bytes
joined (ok hi) (ok lo) (ok bytes) = ok ((hi * 16 + lo) ∷ bytes)
joined _ _ _ = err invalid_input

-- A chunk of one byte does not occur, since the length is even.
unfoldable pub decode_chunks : Bytes → Result Bytes
decode_chunks [] = ok []
decode_chunks (a ∷ []) = err invalid_input
decode_chunks (a ∷ b ∷ rest) = joined (hex_nibble a) (hex_nibble b) (decode_chunks rest)

unfoldable pub decode_hex32 : Bytes → Result Bytes
decode_hex32 hex = if not (length hex == 64) then err invalid_input else decode_chunks hex

hex_nibble-hex_digit : (d : ℕ) → d < 16 → hex_nibble (hex_digit d) ≡ ok d
unfolding hex_nibble hex_digit
hex_nibble-hex_digit d h = ground arith

byte_parts : (b : ℕ) → b / 16 * 16 + b % 16 ≡ b
byte_parts b = omega arith

decode_chunks-to_hex : (bs : Bytes) → All IsByte bs → decode_chunks (to_hex bs) ≡ ok bs
unfolding decode_chunks to_hex joined
decode_chunks-to_hex [] h = refl
decode_chunks-to_hex (b ∷ bs) (hb, h) =
    rw
      (
        hex_nibble-hex_digit (b / 16) (omega arith),
        hex_nibble-hex_digit (b % 16) (omega arith),
        decode_chunks-to_hex bs h,
        byte_parts b,
      )
      refl

length-to_hex : (bs : Bytes) → length (to_hex bs) ≡ 2 * length bs
unfolding to_hex
length-to_hex [] = refl
length-to_hex (b ∷ bs) = omega (arith, length-to_hex bs)

-- The client reads a digest of 32 bytes back from its hexadecimal digits.
pub decode_hex32-to_hex : (bs : Bytes) → IsArray 32 bs → decode_hex32 (to_hex bs) ≡ ok bs
unfolding decode_hex32
decode_hex32-to_hex bs h =
    let size : length (to_hex bs) ≡ 64 = omega (arith, length-to_hex bs, h.size) in
    rw size (decode_chunks-to_hex bs h.bytes_in_range)
