-- ===== src/Protocol/Codec/Shape.antt =====
-- What `decode_message` accepts: only well-formed messages, and only whole frames.
use bcmr.Prelude.{ℕ, ◌%◌, ◌^◌, ◌≡◌, sym, arith}
use bcmr.Prelude.{◌&◌, not, ◌==◌, inl, inr, none, some, Option-cases, List, [], ◌∷◌}
use bcmr.Prelude.{◌++◌, append_assoc, append-nil, length, length-append, All}
use bcmr.Prelude.{split_at?_lem, split_at?-append}
use mathlib.Core.Path.{subst}
use bcmr.Bytes.Word.{Bytes, IsByte, IsU32, IsArray}
use bcmr.Protocol.Message.{Message, IsMessage, IsEntry, hello, list, stat, hash, get, put, mkdir}
use bcmr.Protocol.Message.{done, open_direct_channel, auth_hello, put_chunked, get_chunked, resume}
use bcmr.Protocol.Message.{truncate, welcome, ok, error, data_plain, data_compressed}
use bcmr.Protocol.Message.{have_blocks, missing_blocks, stat_response, hash_response}
use bcmr.Protocol.Message.{list_response, resume_response, direct_channel_ready, auth_challenge}
use bcmr.Protocol.Reader.{Reader, ◌>>=◌, pure, take_bytes, read_count}
use bcmr.Protocol.Reader.{read_u8, read_u32_le, read_list_entry}
use bcmr.Protocol.Reader.Laws.{bind_some, bind_inv}
use bcmr.Protocol.Reader.Yields.{Yields, IsCounted, Yields-pure, Yields-fail, Yields-if}
use bcmr.Protocol.Reader.Yields.{Yields-bind, read_u8-Yields, read_u8_or_zero-Yields}
use bcmr.Protocol.Reader.Yields.{read_u32_le-Yields, read_u64_le-Yields, read_i64_le-Yields}
use bcmr.Protocol.Reader.Yields.{read_string-Yields, read_bytes-Yields, read_fixed-Yields}
use bcmr.Protocol.Reader.Yields.{read_opt_string-Yields, read_opt_u64-Yields, take_bytes-Yields}
use bcmr.Protocol.Reader.Yields.{read_list_entry-Yields, read_count-Yields}
use bcmr.Protocol.Writer.{write_u32_le}
use bcmr.Protocol.Codec.{encode_payload, encode_message}
use bcmr.Protocol.Codec.{
  decode_arms, match_byte, decode_body, decode_payload, frame_payload, decode_message,
}
use bcmr.Protocol.Codec.RoundTrip.{frame_payload-write}

hashes-Yields :
    (count : ℕ)
    → Yields (IsCounted (IsCounted IsByte 32) count) (read_count count (read_count 32 read_u8))
hashes-Yields count = read_count-Yields _ (read_count-Yields _ read_u8-Yields 32) count

arrays : (hashes : List Bytes) → All (IsCounted IsByte 32) hashes → All (IsArray 32) hashes
arrays [] h = tt
arrays (x ∷ hashes) (hx, h) = (record { size = hx.size; bytes_in_range = hx.each }, arrays hashes h)

entries-Yields : (count : ℕ) → Yields (IsCounted IsEntry count) (read_count count read_list_entry)
entries-Yields count = read_count-Yields _ read_list_entry-Yields count

have_blocks-Yields : Yields IsMessage (do
  size ← read_u32_le
  count ← read_u32_le
  hashes ← read_count count (read_count 32 read_u8)
  pure (have_blocks size hashes))
have_blocks-Yields = Yields-bind _ _ read_u32_le-Yields λ size hs.
    Yields-bind _ _ read_u32_le-Yields λ count hn.
      Yields-bind _ _ (hashes-Yields count) λ hashes hh.
        Yields-pure (have_blocks size hashes)
          (hs, subst IsU32 (sym hh.size) hn, arrays hashes hh.each)

list_response-Yields : Yields IsMessage (do
  count ← read_u32_le
  entries ← read_count count read_list_entry
  pure (list_response entries))
list_response-Yields = Yields-bind _ _ read_u32_le-Yields λ count hn.
    Yields-bind _ _ (entries-Yields count)
      λ entries he. Yields-pure (list_response entries) (subst IsU32 (sym he.size) hn, he.each)

match_byte-Yields :
    (ty : ℕ) (arms : List (ℕ × Reader Message))
    → All (λ arm. Yields IsMessage arm.1) arms
    → Yields IsMessage (match_byte ty arms)
unfolding match_byte
match_byte-Yields ty [] h = Yields-fail
match_byte-Yields ty ((tag, read) ∷ arms) (p, h) =
    Yields-if (ty == tag) read (match_byte ty arms) p (match_byte-Yields ty arms h)

arms-Yields : All (λ arm. Yields IsMessage arm.1) decode_arms
unfolding decode_arms
arms-Yields =
    (Yields-bind _ _ read_u8-Yields
      λ a ha. Yields-bind _ _ read_u8_or_zero-Yields λ b hb. Yields-pure (hello a b) (ha, hb))
    & (Yields-bind _ _ read_string-Yields λ a ha. Yields-pure (list a) ha)
    & (Yields-bind _ _ read_string-Yields λ a ha. Yields-pure (stat a) ha)
    & (Yields-bind _ _ read_string-Yields λ a ha.
        Yields-bind _ _ read_u64_le-Yields
          λ b hb. Yields-bind _ _ read_opt_u64-Yields λ c hc. Yields-pure (hash a b c) (ha, hb, hc))
    & (Yields-bind _ _ read_string-Yields
        λ a ha. Yields-bind _ _ read_u64_le-Yields λ b hb. Yields-pure (get a b) (ha, hb))
    & (Yields-bind _ _ read_string-Yields λ a ha.
        Yields-bind _ _ read_u64_le-Yields
          λ b hb. Yields-bind _ _ read_u64_le-Yields λ c hc. Yields-pure (put a b c) (ha, hb, hc))
    & (Yields-bind _ _ read_string-Yields λ a ha. Yields-pure (mkdir a) ha)
    & (Yields-bind _ _ read_string-Yields λ a ha. Yields-pure (resume a) ha)
    & (Yields-pure done tt)
    & (Yields-bind _ _ read_u8-Yields
        λ a ha. Yields-bind _ _ read_u8_or_zero-Yields λ b hb. Yields-pure (welcome a b) (ha, hb))
    & (Yields-bind _ _ read_opt_string-Yields λ a ha. Yields-pure (ok a) ha)
    & (Yields-bind _ _ read_string-Yields λ a ha. Yields-pure (error a) ha)
    & (Yields-bind _ _ read_bytes-Yields λ a ha. Yields-pure (data_plain a) ha)
    & (Yields-bind _ _ read_u8-Yields λ a ha. Yields-bind _ _ read_u32_le-Yields λ b hb.
        Yields-bind _ _ read_bytes-Yields λ c hc. Yields-pure (data_compressed a b c) (ha, hb, hc))
    & have_blocks-Yields
    & (Yields-bind _ _ read_bytes-Yields λ a ha. Yields-pure (missing_blocks a) ha)
    & (Yields-bind _ _ read_u64_le-Yields λ a ha. Yields-bind _ _ read_i64_le-Yields λ b hb.
        Yields-bind _ _ read_u8-Yields
          λ c hc. Yields-pure (stat_response a b (not (c == 0))) (ha, hb))
    & (Yields-bind _ _ read_string-Yields λ a ha. Yields-pure (hash_response a) ha)
    & list_response-Yields
    & (Yields-bind _ _ read_u64_le-Yields λ a ha.
        Yields-bind _ _ read_opt_string-Yields λ b hb. Yields-pure (resume_response a b) (ha, hb))
    & (Yields-pure open_direct_channel tt)
    & (Yields-bind _ _ (read_fixed-Yields 32) λ a ha. Yields-pure (auth_hello a) ha)
    & (Yields-bind _ _ read_string-Yields λ a ha.
        Yields-bind _ _ (read_fixed-Yields 32)
          λ b hb. Yields-pure (direct_channel_ready a b) (ha, hb))
    & (Yields-bind _ _ (read_fixed-Yields 32) λ a ha. Yields-pure (auth_challenge a) ha)
    & (Yields-bind _ _ read_string-Yields λ a ha. Yields-bind _ _ read_u64_le-Yields λ b hb.
        Yields-bind _ _ read_u64_le-Yields λ c hc. Yields-pure (put_chunked a b c) (ha, hb, hc))
    & (Yields-bind _ _ read_string-Yields λ a ha. Yields-bind _ _ read_u64_le-Yields λ b hb.
        Yields-bind _ _ read_u64_le-Yields λ c hc. Yields-pure (get_chunked a b c) (ha, hb, hc))
    & (Yields-bind _ _ read_string-Yields
        λ a ha. Yields-bind _ _ read_u64_le-Yields λ b hb. Yields-pure (truncate a b) (ha, hb))
    & tt

decode_body-Yields : (ty : ℕ) → Yields IsMessage (decode_body ty)
unfolding decode_body
decode_body-Yields ty = match_byte-Yields ty decode_arms arms-Yields

decode_payload-Yields : Yields IsMessage decode_payload
unfolding decode_payload
decode_payload-Yields = Yields-bind _ _ read_u8-Yields λ ty h. decode_body-Yields ty

frame_payload-Yields : Yields (All IsByte) frame_payload
unfolding frame_payload
frame_payload-Yields = Yields-bind _ _ read_u32_le-Yields λ n hn. record {
  at = λ bs a rest h e.
      let (array, back) = (take_bytes-Yields n).at bs a rest h e in (array.bytes_in_range, back);
}

decode_message_cases :
    (frame : Bytes) {m : Message}
    → decode_message frame ≡ some m
    → (payload : Bytes) × (behind : Bytes) × (left : Bytes) × (frame_payload frame
        ≡ some (payload, behind))
      × (decode_payload payload ≡ some (m, left))
unfolding decode_message
decode_message_cases frame e = elim (Option-cases (frame_payload frame)) [
  | inl short ↦ ground arith
  | inr ((payload, behind), cut) ↦ elim (Option-cases (decode_payload payload)) [
    | inl bad ↦ ground arith
    | inr ((m, left), got) ↦ (payload, behind, left, cut, ground arith)
  ]
]

-- Whatever bytes come in, a message that is decoded is well formed: its numbers are in the range
-- of their types, its strings are UTF-8, and its arrays have their length.
pub decode_message-IsMessage :
    (frame : Bytes) (m : Message) → All IsByte frame → decode_message frame ≡ some m → IsMessage m
decode_message-IsMessage frame m h e =
    let (payload, behind, left, cut, got) = decode_message_cases frame e in
    (decode_payload-Yields.at payload m left
      ((frame_payload-Yields.at frame payload behind h cut).0) got).0

-- A read that succeeds does not look at what is added behind.
take_bytes-append_some :
    (n : ℕ) (bs more : Bytes) {a rest : Bytes}
    → take_bytes n bs ≡ some (a, rest)
    → take_bytes n (bs ++ more) ≡ some (a, rest ++ more)
unfolding take_bytes
take_bytes-append_some n bs more {a} {rest} e =
    let (cut, size) = split_at?_lem n bs e in
    rw (cut, append_assoc) (split_at?-append a (rest ++ more) n size)

read_u32_le-append :
    (bs more : Bytes) {n : ℕ} {rest : Bytes}
    → read_u32_le bs ≡ some (n, rest)
    → read_u32_le (bs ++ more) ≡ some (n, rest ++ more)
unfolding read_u32_le
read_u32_le-append bs more e =
    let (word, mid, got, last) = bind_inv _ _ bs e in
    bind_some _ _ (take_bytes-append_some 4 bs more got) (ground (arith, last))

pub frame_payload-append :
    (bs more : Bytes) {payload rest : Bytes}
    → frame_payload bs ≡ some (payload, rest)
    → frame_payload (bs ++ more) ≡ some (payload, rest ++ more)
unfolding frame_payload
frame_payload-append bs more e =
    let (len, mid, got, last) = bind_inv _ _ bs e in
    bind_some _ _ (read_u32_le-append bs more got) (take_bytes-append_some len mid more last)

frame_payload_cut :
    (payload front back : Bytes) (b : ℕ)
    → IsU32 (length payload)
    → write_u32_le (length payload % 2 ^ 32) ++ payload ≡ front ++ (b ∷ back)
    → frame_payload front ≡ none
frame_payload_cut payload front back b fits e = elim (Option-cases (frame_payload front)) [
  | inl short ↦ short
  | inr ((taken, rest), cut) ↦ absurd (
      ground
        (arith, whole, frame_payload-append front (b ∷ back) cut, length-append rest (b ∷ back)))
]
  where
    whole : frame_payload (front ++ (b ∷ back)) ≡ some (payload, [])
    whole = rw (← e) (rw append-nil at (frame_payload-write payload [] fits))

-- A frame that is cut anywhere is refused.
pub decode_message_cut :
    (m : Message) (front back : Bytes) (b : ℕ)
    → IsU32 (length (encode_payload m))
    → encode_message m ≡ front ++ (b ∷ back)
    → decode_message front ≡ none
unfolding encode_message decode_message
decode_message_cut m front back b fits e =
    ground (arith, frame_payload_cut (encode_payload m) front back b fits e)
