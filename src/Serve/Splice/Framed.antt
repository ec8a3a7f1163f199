-- ===== src/Serve/Splice/Framed.antt =====
-- What a file is sent as when it is spliced.
use bcmr.Prelude.{
  ℕ, zero, suc, ◌+◌, ◌-◌, ◌%◌, ◌^◌, ◌≡◌, ◌≢◌, ◌≤◌, ◌<◌, refl, sym, ap, ◌∙◌, arith, false, true,
}
use bcmr.Prelude.{
  Option, none, some, List, [], ◌∷◌, ◌++◌, append_assoc, append-nil, lt→ltb, length-append,
}
use bcmr.Prelude.{length, take, drop, concat, length-take_of_le, length-drop, take-append-drop}
use bcmr.Prelude.{inl, inr, Bool, if◌then◌else◌, ltb}
use bcmr.Prelude.Tests.{Option-cases}
use Prim.Native.Nat.{min}
use mathlib.Core.Path.{subst}
use bcmr.Bytes.Word.{Bytes, to_le_bytes, length-to_le_bytes}
use bcmr.Bytes.Write.{drop-drop, take-length}
use bcmr.Errors.{io, other, raise, pure, ok, Exec, bind_ok, ◌>>◌}
use bcmr.Protocol.Message.{Message, data_plain}
use bcmr.Protocol.Tag
use bcmr.Protocol.Writer
use bcmr.Protocol.Writer.{write_u32_le, write_bytes}
use bcmr.Protocol.Codec.{type_byte, encode_body, encode_payload, encode_message}
use bcmr.Protocol.Stream.{Sink, write_all}
use bcmr.Compress.{Codecs, uncompressed, encode_block}
use bcmr.Serve.Get.Parts.{frames, Chunks}
use bcmr.Serve.Get.Hashed.{take_part}
use bcmr.Serve.Splice.{
  SpliceFile, splice_part, splice_got, splice_n, data_header, ok_frame, splice_loop,
}
use bcmr.Serve.Splice.{splice_sized, handle_get_splice_linux}

-- The header and the chunk are the frame of the message.
header-frame :
    (chunk : Bytes) → data_header (length chunk) ++ chunk ≡ encode_message (data_plain chunk)
unfolding data_header encode_message encode_payload encode_body write_bytes type_byte write_u32_le
header-frame chunk =
    let v = length chunk % 2 ^ 32 in
    let size : length (Tag.type_data ∷ (to_le_bytes 4 v ++ chunk)) ≡ 5 + length chunk =
      omega (arith, length-append (to_le_bytes 4 v) chunk, length-to_le_bytes 4 v) in
    rw size
      (append_assoc (to_le_bytes 4 ((5 + length chunk) % 2 ^ 32)) (0x84 ∷ to_le_bytes 4 v) chunk)

ok-frame : ok_frame ≡ encode_message (Message.ok none)
unfolding ok_frame encode_message encode_payload encode_body type_byte write_u32_le
    Writer.write_opt_string
ok-frame = refl

sent_more : Sink → Bytes → Sink
sent_more s more = record { sent = s.sent ++ more; closed = s.closed }

-- What one call took of `n` bytes, and what is left of them.
take-got :
    (content : Bytes) (at n k : ℕ) (part : Bytes)
    → n ≤ length content - at
    → part ≡ take (min k n) (drop at content)
    → (length part ≡ min k n)
      × (take n (drop at content)
          ≡ part ++ take (n - length part) (drop (at + length part) content))
take-got content at n k part within is =
    let rest = drop at content in
    let size : length part ≡ min k n =
      ap (λ (xs : Bytes). length xs) is
      ∙ length-take_of_le (min k n) rest (omega (arith, length-drop at content)) in
    let split : part ++ drop (length part) rest ≡ rest =
      ap (λ (xs : Bytes). xs ++ drop (length part) rest) is
      ∙ ap (λ (m : ℕ). take (min k n) rest ++ drop m rest) size
      ∙ take-append-drop (min k n) rest in
    (
      size,
      ap (λ (xs : Bytes). take n xs) (sym split)
          ∙ take_part n part (drop (length part) rest) (omega (arith, size))
          ∙ ap (λ (xs : Bytes). part ++ take (n - length part) xs)
              (drop-drop (length part) at content),
    )

-- Each call takes something, as long as there is something.
pub record IsSplicing (file : SpliceFile) : Type 0 where
  pub works : (at : ℕ) → file.gets at ≢ none
  pub moves : (at : ℕ) → at < length file.content → file.gets at ≢ some 0

module _ (file : SpliceFile) (fine : IsSplicing file) where
  -- A run that succeeds and sends these bytes.
  abbrev Sends : Exec Sink (Unit {0}) → Bytes → Type 0
  Sends m more = (s : Sink) → s.closed ≡ false → m s ≡ (ok tt, sent_more s more)

  Sends-bind :
      (m n : Exec Sink (Unit {0})) (xs ys : Bytes)
      → Sends m xs
      → Sends n ys
      → Sends (do m; n) (xs ++ ys)
  unfolding sent_more
  Sends-bind m n xs ys hm hn s is_open =
      bind_ok m (λ _. n) (hm s is_open) (hn (sent_more s xs) is_open)
      ∙ ap (λ (bytes : Bytes). (ok tt, record s { sent = bytes })) (append_assoc s.sent xs ys)

  pure-Sends : Sends (pure tt) []
  unfolding sent_more
  pure-Sends s is_open =
      ap (λ (bytes : Bytes). (ok tt, record s { sent = bytes })) (sym (append-nil s.sent))

  Sends-if :
      (b : Bool) (m n : Exec Sink (Unit {0})) (xs : Bytes)
      → b ≡ true
      → Sends m xs
      → Sends (if b then m else n) xs
  Sends-if true m n xs e h = h
  Sends-if false m n xs e h = cc

  write_all-Sends : (frame : Bytes) → Sends (write_all frame) frame
  unfolding write_all sent_more
  write_all-Sends frame s is_open = rw is_open refl

  splice_part-Sends :
      (later : ℕ → Exec Sink (Unit {0})) (part rest : Bytes)
      → 1 ≤ length part
      → Sends (later (length part)) rest
      → Sends (splice_part later part) (part ++ rest)
  unfolding splice_part
  splice_part-Sends later [] rest size next = absurd (omega arith)
  splice_part-Sends later (b ∷ bs) rest size next =
      Sends-bind (write_all (b ∷ bs)) (later (length (b ∷ bs))) (b ∷ bs) rest
        (write_all-Sends (b ∷ bs)) next

  splice_n-Sends :
      (fuel at n : ℕ)
      → n ≤ fuel
      → n ≤ length file.content - at
      → Sends (splice_n fuel file at n) (take n (drop at file.content))
  unfolding splice_n splice_got take
  splice_n-Sends fuel at zero enough within = pure-Sends
  splice_n-Sends zero at (suc n) enough within = absurd (omega arith)
  splice_n-Sends (suc fuel) at (suc n) enough within = elim (Option-cases (file.gets at)) [
    | inl fails ↦ absurd (fine.works at fails)
    | inr (k, gets) ↦
        let part = take (min k (suc n)) (drop at file.content) in
        let (size, split) = take-got file.content at (suc n) k part within refl in
        let some_more : k ≢ 0 =
          λ e. fine.moves at (omega (arith, within)) (gets ∙ ap (λ (m : ℕ). some m) e) in
        let moved : 1 ≤ length part = omega (arith, size, some_more) in
        let later : ℕ → Exec Sink (Unit {0}) = λ got. splice_n fuel file (at + got) (suc n - got) in
        rw (gets, split)
          (splice_part-Sends later part _ moved (
            splice_n-Sends fuel (at + length part) (suc n - length part)
              (omega (arith, enough, moved)) (omega (arith, within))))
  ]

  module _ (codecs : Codecs) (chunk_size : ℕ) (progress : 1 ≤ chunk_size) where
    -- The bytes of these parts, each as a message.
    abbrev wire : List Bytes → Bytes
    wire parts = Writer.write_all encode_message (frames codecs uncompressed parts)

    -- What the rest of the loop sends.
    record Rest (m : Exec Sink (Unit {0})) (at remaining : ℕ) : Type 0 where
      parts : List Bytes
      result : Sends m (wire parts)
      whole : concat parts ≡ take remaining (drop at file.content)
      chunks : Chunks chunk_size parts

    splice_loop-Rest :
        (fuel at remaining : ℕ)
        → remaining ≤ fuel
        → remaining ≤ length file.content - at
        → Rest (splice_loop chunk_size fuel file at remaining) at remaining
    unfolding splice_loop Writer.write_all frames concat take encode_block
    splice_loop-Rest fuel at zero enough within = record {
      parts = [];
      result = pure-Sends;
      whole = refl;
      chunks = tt;
    }
    splice_loop-Rest zero at (suc r) enough within = absurd (omega arith)
    splice_loop-Rest (suc fuel) at (suc r) enough within =
        let chunk = min (suc r) chunk_size in
        let part = take chunk (drop at file.content) in
        let fits : min chunk (suc r) ≡ chunk = omega (arith, progress) in
        let (size, split) =
          take-got file.content at (suc r) chunk part within
            (ap (λ (m : ℕ). take m (drop at file.content)) (sym fits)) in
        let long : length part ≡ chunk = size ∙ fits in
        let h =
          splice_loop-Rest fuel (at + chunk) (suc r - chunk) (omega (arith, enough, progress))
            (omega (arith, within)) in
        let framed : data_header chunk ++ (part ++ wire h.parts)
            ≡ encode_message (data_plain part) ++ wire h.parts =
          sym (append_assoc (data_header chunk) part (wire h.parts))
          ∙ ap (λ (n : ℕ). (data_header n ++ part) ++ wire h.parts) (sym long)
          ∙ ap (λ (xs : Bytes). xs ++ wire h.parts) (header-frame part) in
        record {
          parts = part ∷ h.parts;
          result =
              subst
                (λ (bytes : Bytes).
                  Sends
                    (do
                      write_all (data_header chunk)
                      splice_n chunk file at chunk
                      splice_loop chunk_size fuel file (at + chunk) (suc r - chunk))
                    bytes)
                framed
                (Sends-bind (write_all (data_header chunk))
                  (do
                    splice_n chunk file at chunk
                    splice_loop chunk_size fuel file (at + chunk) (suc r - chunk))
                  (data_header chunk) (part ++ wire h.parts) (write_all-Sends (data_header chunk))
                  (Sends-bind (splice_n chunk file at chunk) _ part (wire h.parts)
                    (splice_n-Sends chunk at chunk (omega arith) (omega (arith, within)))
                    h.result));
          whole =
              ap (λ (xs : Bytes). part ++ xs) h.whole
              ∙ ap (λ (n : ℕ). part ++ take (suc r - n) (drop (at + n) file.content)) (sym long)
              ∙ sym split;
          chunks = ((omega (arith, long, progress), omega (arith, long)), h.chunks);
        }

    wire-append :
        (parts : List Bytes) (msg : Message)
        → Writer.write_all encode_message (frames codecs uncompressed parts ++ (msg ∷ []))
          ≡ wire parts ++ encode_message msg
    unfolding Writer.write_all frames
    wire-append [] msg = append-nil (encode_message msg)
    wire-append (part ∷ parts) msg =
        ap (λ (xs : Bytes). encode_message (encode_block codecs uncompressed part) ++ xs)
          (wire-append parts msg)
        ∙ sym (
            append_assoc (encode_message (encode_block codecs uncompressed part)) (wire parts)
              (encode_message msg))

    -- If no call fails and the file does not change, splicing sends on an open connection the bytes
    -- of the messages that `handle_get` sends without compression and without a digest: the file
    -- from the offset on, in parts that are not empty and not longer than a chunk, and an Ok.
    pub handle_get_splice_linux-frames :
        (offset : ℕ) (s : Sink)
        → offset < 2 ^ 63
        → file.pipes ≡ true
        → file.size ≡ some (length file.content)
        → s.closed ≡ false
        → (parts : List Bytes) × (handle_get_splice_linux chunk_size offset (some file) s ≡ (
          ok tt,
          record s {
            sent =
                s.sent
                ++ Writer.write_all encode_message
                    (frames codecs uncompressed parts ++ (Message.ok none ∷ []));
          },
        ))
          × (concat parts ≡ drop offset file.content)
          × Chunks chunk_size parts
    unfolding handle_get_splice_linux splice_sized sent_more
    handle_get_splice_linux-frames offset s room pipes size is_open =
        let left = length file.content - offset in
        let h = splice_loop-Rest left offset left (omega arith) (omega arith) in
        let all : take left (drop offset file.content) ≡ drop offset file.content =
          ap (λ (n : ℕ). take n (drop offset file.content)) (sym (length-drop offset file.content))
          ∙ take-length (drop offset file.content) in
        let bytes = wire h.parts ++ ok_frame in
        let sized : Sends (splice_sized chunk_size file offset (some (length file.content))) bytes =
          Sends-if file.pipes _ _ bytes pipes (
            Sends-bind (splice_loop chunk_size left file offset left) (write_all ok_frame)
              (wire h.parts) ok_frame h.result (write_all-Sends ok_frame)) in
        let opened : Sends (splice_sized chunk_size file offset file.size) bytes =
          subst (λ (o : Option ℕ). Sends (splice_sized chunk_size file offset o) bytes) (sym size)
            sized in
        let sent =
          Sends-if (ltb offset (2 ^ 63)) _ (raise (io other)) bytes (lt→ltb offset (2 ^ 63) room)
            opened s is_open in
        let same : bytes
            ≡ Writer.write_all encode_message
                (frames codecs uncompressed h.parts ++ (Message.ok none ∷ [])) =
          ap (λ (xs : Bytes). wire h.parts ++ xs) ok-frame
          ∙ sym (wire-append h.parts (Message.ok none)) in
        (h.parts, sent ∙ ap (λ (xs : Bytes). (ok tt, sent_more s xs)) same, h.whole ∙ all, h.chunks)
