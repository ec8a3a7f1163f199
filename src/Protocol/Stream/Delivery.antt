-- ===== src/Protocol/Stream/Delivery.antt =====
-- Messages that were written one after the other are read one after the other.
use bcmr.Prelude.{ℕ, ◌%◌, ◌^◌, ◌≤◌, ◌≡◌, refl, ap, ◌∙◌, arith, le→ltb}
use bcmr.Prelude.{Bool, false, none, some, List, [], ◌∷◌, ◌++◌, append_assoc, append-nil}
use bcmr.Prelude.{length, All, split_at?, split_at?-append}
use bcmr.Bytes.Word.{Bytes, from_le_bytes, length-to_le_bytes}
use bcmr.Bytes.Word.{from_le_bytes-to_le_bytes}
use bcmr.Errors.{Exec, pure, ◌>>◌, Result, ok, bind_ok}
use bcmr.Protocol.Message.{Message, IsMessage}
use bcmr.Protocol.Writer.{write_u32_le}
use bcmr.Protocol.Codec.{encode_payload, encode_message, decode_message}
use bcmr.Protocol.Codec.RoundTrip.{decode_message-encode_message}
use bcmr.Protocol.Stream.{Stream, Sink, read_exact, write_all, max_frame_size, decoded}
use bcmr.Protocol.Stream.{read_payload, after_header, read_message, write_message}

-- The stream of a peer that has sent `bytes`.
abbrev pub stream : Bytes → Bool → Stream
stream bytes broken = record { bytes = bytes; broken = broken }

-- A message that fits a frame.
pub record IsSendable (m : Message) : Type 0 where
  pub valid : IsMessage m
  pub small : length (encode_payload m) ≤ max_frame_size

pub read_exact-append :
    (n : ℕ) (front back : Bytes) (broken : Bool)
    → length front ≡ n
    → read_exact n (stream (front ++ back) broken) ≡ (ok front, stream back broken)
unfolding read_exact
read_exact-append n front back broken h = ground (arith, split_at?-append front back n h)

-- The length of a payload that fits a frame, in four bytes.
abbrev pub header : Bytes → Bytes
header payload = write_u32_le (length payload % 2 ^ 32)

header-size : (payload : Bytes) → length (header payload) ≡ 4
unfolding write_u32_le
header-size payload = length-to_le_bytes 4 _

header-value :
    (payload : Bytes)
    → length payload ≤ max_frame_size
    → from_le_bytes (header payload) ≡ length payload
unfolding write_u32_le
header-value payload h =
    from_le_bytes-to_le_bytes 4 (length payload % 2 ^ 32) (omega arith) ∙ omega arith

decode_message-parts :
    (m : Message)
    → IsSendable m
    → decode_message (header (encode_payload m) ++ encode_payload m) ≡ some m
unfolding encode_message
decode_message-parts m h =
    rw append-nil at (decode_message-encode_message m [] h.valid (omega (arith, h.small)))

read_payload-append :
    (m : Message) (rest : Bytes) (broken : Bool)
    → IsSendable m
    → read_payload (header (encode_payload m)) (stream (encode_payload m ++ rest) broken)
      ≡ (ok (some m), stream rest broken)
unfolding read_payload decoded
read_payload-append m rest broken h =
    let payload = encode_payload m in
    rw (header-value payload h.small, le→ltb _ _ h.small)
      (bind_ok _ _ (read_exact-append (length payload) payload rest broken refl)
        (rw (decode_message-parts m h, decoded)))

-- A message is read back, and the stream goes on behind its frame.
pub read_message-encode_message :
    (m : Message) (rest : Bytes) (broken : Bool)
    → IsSendable m
    → read_message (stream (encode_message m ++ rest) broken) ≡ (ok (some m), stream rest broken)
unfolding encode_message read_message after_header
read_message-encode_message m rest broken h =
    let payload = encode_payload m in
    rw append_assoc (
      ap (λ (p : Result Bytes × Stream). after_header p.0 p.1)
        (read_exact-append 4 (header payload) (payload ++ rest) broken (header-size payload))
      ∙ read_payload-append m rest broken h)

-- `ms` are read from `s`, one call of `read_message` after the other, and `s'` is left.
pub data Delivers : Stream → List Message → Stream → Type 0 where
  nothing : {s : Stream} → Delivers s [] s
  message :
      {m : Message} {ms : List Message} {s t u : Stream}
      → read_message s ≡ (ok (some m), t)
      → Delivers t ms u
      → Delivers s (m ∷ ms) u

-- The calls of `write_message`, until one fails.
pub write_messages : List Message → Exec Sink (Unit {0})
write_messages [] = pure tt
write_messages (m ∷ ms) = do write_message m; write_messages ms

encodings : List Message → Bytes
encodings [] = []
encodings (m ∷ ms) = encode_message m ++ encodings ms

pub write_message-open :
    (m : Message) (out : Bytes)
    → write_message m (record { sent = out; closed = false })
      ≡ (ok tt, record { sent = out ++ encode_message m; closed = false })
unfolding write_message write_all
write_message-open m out = refl

write_messages-encodings :
    (ms : List Message) (out : Bytes)
    → write_messages ms (record { sent = out; closed = false })
      ≡ (ok tt, record { sent = out ++ encodings ms; closed = false })
unfolding write_messages encodings
write_messages-encodings [] out = rw append-nil
write_messages-encodings (m ∷ ms) out =
    bind_ok _ _ (write_message-open m out)
      (write_messages-encodings ms (out ++ encode_message m) ∙ rw append_assoc)

Delivers-encodings :
    (ms : List Message) (rest : Bytes) (broken : Bool)
    → All IsSendable ms
    → Delivers (stream (encodings ms ++ rest) broken) ms (stream rest broken)
unfolding encodings
Delivers-encodings [] rest broken h = nothing
Delivers-encodings (m ∷ ms) rest broken (hm, h) = rw append_assoc (
    message (read_message-encode_message m (encodings ms ++ rest) broken hm)
      (Delivers-encodings ms rest broken h))

-- Messages that are written to an empty, open connection are all sent, and the peer reads exactly
-- these messages in this order. Then it finds the end of the stream.
pub write_messages-Delivers :
    (ms : List Message)
    → All IsSendable ms
    → (sent : Bytes) × (write_messages ms (record { sent = []; closed = false })
        ≡ (ok tt, record { sent = sent; closed = false }))
      × Delivers (stream sent false) ms (stream [] false)
      × (read_message (stream [] false) ≡ (ok none, stream [] false))
write_messages-Delivers ms h = (
  encodings ms,
  write_messages-encodings ms [],
  rw append-nil at (Delivers-encodings ms [] false h),
  unfold read_message read_exact after_header split_at? in refl,
)
