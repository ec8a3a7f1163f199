-- ===== src/Examples/Wire.antt =====
-- Messages and plain streams.
use bcmr.Prelude.{◌<◌, ◌≡◌, refl, arith, false}
use bcmr.Prelude.{append-nil, none, some, [], ◌∷◌, ◌++◌, length, All}
use bcmr.Bytes.Word.{Bytes, IsByte, to_le_bytes}
use bcmr.Bytes.Utf8.{is_utf8-ascii}
use bcmr.Errors.{ok}
use bcmr.Protocol.Message.{Message, IsMessage, IsText, put, done, data_plain}
use bcmr.Protocol.Writer.{write_bytes, write_u32_le, write_u64_le, write_string}
use bcmr.Protocol.Codec.{type_byte, encode_body, encode_payload, encode_message, decode_message}
use bcmr.Protocol.Codec.RoundTrip.{decode_message-encode_message}
use bcmr.Protocol.Codec.Shape.{decode_message-IsMessage}
use bcmr.Protocol.Stream.{read_message}
use bcmr.Protocol.Stream.Delivery.{stream, IsSendable, write_messages, Delivers}
use bcmr.Protocol.Stream.Delivery.{write_messages-Delivers}

abbrev pub put_a : Message
put_a = put (b'a' ∷ []) 3 0

abbrev pub abc : Message
abc = data_plain (b'a' ∷ b'b' ∷ b'c' ∷ [])

IsText-a : IsText (b'a' ∷ [])
IsText-a = record {
  string = record {
    bytes_in_range = (omega arith, tt);
    utf8 = is_utf8-ascii (b'a' ∷ []) (omega arith, tt);
  };
  short = omega arith;
}

pub put_a-IsMessage : IsMessage put_a
put_a-IsMessage = (IsText-a, omega arith, omega arith)

pub abc-IsMessage : IsMessage abc
abc-IsMessage = record {
  bytes_in_range = (omega arith, (omega arith, (omega arith, tt)));
  short = omega arith;
}

-- The frame of `put_a`: its length, the type byte, "a" behind its length, and two `u64`s.
abbrev pub put_a_frame : Bytes
put_a_frame =
    22 ∷ 0 ∷ 0 ∷ 0 ∷ 0x06 ∷ 1 ∷ 0 ∷ 0 ∷ 0 ∷ b'a' ∷ 3 ∷ 0 ∷ 0 ∷ 0 ∷ 0 ∷ 0 ∷ 0 ∷ 0 ∷ 0 ∷ 0 ∷ 0 ∷ 0 ∷ 0
    ∷ 0 ∷ 0 ∷ 0 ∷ []

pub encode_put_a : encode_message put_a ≡ put_a_frame
unfolding encode_message encode_payload type_byte encode_body write_u32_le to_le_bytes write_string
    write_u64_le
encode_put_a = refl

put_a_small : length (encode_payload put_a) < 64
unfolding encode_payload type_byte encode_body write_u32_le to_le_bytes write_string write_u64_le
put_a_small = omega arith

abc_small : length (encode_payload abc) < 64
unfolding encode_payload type_byte encode_body write_u32_le to_le_bytes write_bytes
abc_small = omega arith

frame_bytes : All IsByte put_a_frame
frame_bytes = ground arith

pub decode_put_a : decode_message put_a_frame ≡ some put_a
decode_put_a =
    rw (encode_put_a, append-nil) at
      (decode_message-encode_message put_a [] put_a-IsMessage (omega (arith, put_a_small)))

pub put_a-IsSendable : IsSendable put_a
put_a-IsSendable = record { valid = put_a-IsMessage; small = omega (arith, put_a_small) }

pub abc-IsSendable : IsSendable abc
abc-IsSendable = record { valid = abc-IsMessage; small = omega (arith, abc_small) }

pub done-IsSendable : IsSendable done
unfolding encode_payload type_byte encode_body
done-IsSendable = record { valid = tt; small = omega arith }

decode_message-encode_message_example :
    decode_message (encode_message put_a ++ (7 ∷ [])) ≡ some put_a
decode_message-encode_message_example =
    decode_message-encode_message put_a (7 ∷ []) put_a-IsMessage (omega (arith, put_a_small))

decode_message-IsMessage_example : IsMessage put_a
decode_message-IsMessage_example =
    decode_message-IsMessage put_a_frame put_a frame_bytes decode_put_a

write_messages-Delivers_example :
    (sent : Bytes) × (write_messages
        (put_a ∷ abc ∷ done ∷ [])
        (record { sent = []; closed = false })
      ≡ (ok tt, record { sent = sent; closed = false }))
    × Delivers (stream sent false) (put_a ∷ abc ∷ done ∷ []) (stream [] false)
    × (read_message (stream [] false) ≡ (ok none, stream [] false))
write_messages-Delivers_example =
    write_messages-Delivers (put_a ∷ abc ∷ done ∷ [])
      (put_a-IsSendable, (abc-IsSendable, (done-IsSendable, tt)))
