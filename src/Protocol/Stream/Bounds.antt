-- ===== src/Protocol/Stream/Bounds.antt =====
-- What `read_message` takes from a stream, whatever the peer has sent.
use bcmr.Prelude.{ℕ, ◌<◌, ◌≡◌, arith}
use bcmr.Prelude.{
  if◌then◌else◌, split_at?-append, split_at?-short, Bool, none, Option-cases, inl, inr, [],
}
use bcmr.Prelude.{◌++◌, length, split_at?, split_at?_lem}
use bcmr.Bytes.Word.{Bytes, from_le_bytes}
use bcmr.Errors.{other, invalid_data, io, ok, err}
use bcmr.Protocol.Message.{Message}
use bcmr.Protocol.Stream.{Stream, read_exact, max_frame_size, read_payload}
use bcmr.Protocol.Stream.{after_header, read_message}

-- `taken` is what was read of `s` to leave `t`.
pub record Takes (s : Stream) (taken : Bytes) (t : Stream) : Type 0 where
  pub cut : s.bytes ≡ taken ++ t.bytes
  pub same_end : t.broken ≡ s.broken

-- A successful `read_exact` takes `n` bytes; an unsuccessful one had fewer.
pub read_exact-ok :
    (n : ℕ) (s t : Stream) (bytes : Bytes)
    → read_exact n s ≡ (ok bytes, t)
    → Takes s bytes t × (length bytes ≡ n)
unfolding read_exact
read_exact-ok n s t bytes e = elim (Option-cases (split_at? n s.bytes)) [
  | inl short ↦ ground (arith, short)
  | inr ((front, back), cut) ↦ ground (arith, cut, split_at?_lem n s.bytes cut)
]

-- A header that announces more than 16 MiB is refused, and nothing behind it is read.
pub read_message_refused :
    (header rest : Bytes) (broken : Bool)
    → length header ≡ 4
    → max_frame_size < from_le_bytes header
    → read_message (record { bytes = header ++ rest; broken = broken })
      ≡ (err (io invalid_data), record { bytes = rest; broken = broken })
unfolding read_message read_exact after_header read_payload
read_message_refused header rest broken size large =
    ground (arith, split_at?-append header rest 4 size)

-- A stream that ends in front of a header or within it is reported as closed, and one that breaks
-- there as broken.
pub read_message_short :
    (header : Bytes) (broken : Bool)
    → length header < 4
    → read_message (record { bytes = header; broken = broken })
      ≡ (if broken then err (io other) else ok none, record { bytes = []; broken = broken })
unfolding read_message read_exact after_header
read_message_short header broken short = ground (arith, split_at?-short 4 header short)
