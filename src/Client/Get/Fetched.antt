-- ===== src/Client/Get/Fetched.antt =====
-- A part of a file that the server sends and the client writes.
use bcmr.Prelude.{ℕ, ◌+◌, ◌%◌, ◌^◌, ◌≡◌, ◌≤◌, ◌<◌, refl, sym, ap, ◌∙◌, arith, false}
use bcmr.Prelude.{Option, none, some, List, [], ◌∷◌, ◌++◌, append_assoc, ltb, not, ◌==◌}
use bcmr.Prelude.{
  length, length-append, take, drop, length-drop, take-append-drop, length-take_of_le, concat,
}
use bcmr.Prelude.{lt→ltb, inl, inr, append-nil}
use mathlib.Core.Path.{subst}
use bcmr.Bytes.Word.{Bytes}
use bcmr.Bytes.Write.{overlay}
use bcmr.Errors.{BcmrError, Result, ok, Exec}
use bcmr.Errors.Runs.{Runs, Runs-ok, Runs-bind, Runs-step, Runs-if}
use bcmr.Protocol.Message.{Message}
use bcmr.Compress.{CompressionAlgo, Codecs, IsLossless, SentAs, encode_block_cases}
use bcmr.Serve.Put.{lift}
use bcmr.Bytes.Read.{ReadFile}
use bcmr.Bytes.Digest.{Blake3}
use bcmr.Serve.Get.{handle_get_chunked}
use bcmr.Serve.Get.Chunked.{handle_get_chunked-frames}
use bcmr.Serve.Get.Parts.{frames, Chunks}
use bcmr.Client.Get.{settled, settle, landed, count}
use bcmr.Client.Get.{GetState, LocalFaults, write_part, take_part, got_all, on_reply, receive_parts}
use bcmr.Client.Get.{get_chunked}
use bcmr.Client.Get.Placed.{IsCalm, IsPlaced, write_all-IsPlaced, settled-count}

module _ (codecs : Codecs) (faults : LocalFaults) (calm : IsCalm faults) (size : ℕ)
    (room : size < 2 ^ 63) (file : Bytes) (start : ℕ) where
  -- The first `start` bytes and what was received are `content`; the rest is as it was.
  record IsAt (content : Bytes) (st : GetState) : Type 0 where
    target : landed faults st ≡ overlay content file
    position : st.position ≡ length content
    written : start + st.written ≡ length content

  take_part-IsAt :
      (content part : Bytes) (st : GetState)
      → length content + length part ≤ start + size
      → IsAt content st
      → Runs (take_part codecs faults size part st) (IsAt (content ++ part))
  unfolding take_part write_part count landed settle
  take_part-IsAt content part st fits h =
      let sum : (st.written + length part) % 2 ^ 64 ≡ st.written + length part =
        omega (arith, h.written, fits, room) in
      let begun : IsPlaced faults calm file st.written content st = record {
        target = h.target;
        position = h.position;
        written = refl;
      } in
      Runs-if (ltb size ((st.written + length part) % 2 ^ 64)) _ _ st (IsAt (content ++ part))
        (λ past. absurd (ground (arith, sum, past, h.written, fits)))
        (λ _.
          Runs-bind _ _ st (IsPlaced faults calm file st.written (content ++ part))
            (IsAt (content ++ part))
            (write_all-IsPlaced faults calm file (length part) st.written content part st
              (omega arith) begun)
            (λ _ t ht.
              let after : GetState = record t { written = (t.written + length part) % 2 ^ 64 } in
              let counted : (t.written + length part) % 2 ^ 64 ≡ st.written + length part =
                omega (arith, ht.written, sum) in
              Runs-ok tt after (IsAt (content ++ part)) (record {
                target = settled-count faults calm file t.flight after.written t ∙ ht.target;
                position = ht.position;
                written = omega (arith, counted, h.written, length-append content part);
              })))

  module _ (lossless : IsLossless codecs) (algo : CompressionAlgo) (ending : Option BcmrError) where
    on_reply-IsAt :
        (content part : Bytes) (msg : Message) (later : Exec GetState (Unit {0})) (st : GetState)
        (Q : GetState → Type 0)
        → SentAs codecs part msg
        → length content + length part ≤ start + size
        → IsAt content st
        → ((t : GetState) → IsAt (content ++ part) t → Runs (later t) Q)
        → Runs (on_reply codecs faults size later msg st) Q
    unfolding on_reply lift
    on_reply-IsAt content part msg later st Q (inl plain) fits h next = rw plain (
        Runs-bind _ _ st (IsAt (content ++ part)) Q (take_part-IsAt content part st fits h)
          (λ _ t ht. next t ht))
    on_reply-IsAt content part msg later st Q (inr (a, n, payload, is, unpacked, _)) fits h next =
        rw is (
          Runs-step _ _ st st part Q (ap (λ (o : Result Bytes). (o, st)) unpacked) (
            Runs-bind _ _ st (IsAt (content ++ part)) Q (take_part-IsAt content part st fits h)
              (λ _ t ht. next t ht)))

    receive_parts-IsAt :
        (chunk_size : ℕ) (parts : List Bytes) (content : Bytes) (hash : Option Bytes)
        (st : GetState)
        → chunk_size < 2 ^ 32
        → Chunks chunk_size parts
        → length content + length (concat parts) ≡ start + size
        → IsAt content st
        → Runs
            (receive_parts codecs faults size ending
              (frames codecs algo parts ++ (Message.ok hash ∷ []))
              st)
            (IsAt (content ++ concat parts))
    unfolding receive_parts frames concat on_reply got_all
    receive_parts-IsAt chunk_size [] content hash st small chunks whole h =
        let done : IsAt (content ++ []) st =
          subst (λ (c : Bytes). IsAt c st) (sym (append-nil content)) h in
        Runs-if (not (st.written == size)) _ _ st (IsAt (content ++ []))
          (λ e. absurd (ground (arith, e, h.written, whole)))
          (λ _. Runs-ok tt st (IsAt (content ++ [])) done)
    receive_parts-IsAt chunk_size (part ∷ parts) content hash st small ((_, short), chunks) whole
          h =
        let split = length-append part (concat parts) in
        let grown = length-append content part in
        on_reply-IsAt content part _ _ st (IsAt (content ++ (part ++ concat parts)))
          (encode_block_cases codecs lossless algo part (omega (arith, short, small)))
          (omega (arith, split, whole)) h
          (λ t ht.
            subst
              (λ (c : Bytes).
                Runs
                  (receive_parts codecs faults size ending
                    (frames codecs algo parts ++ (Message.ok hash ∷ [])) t)
                  (IsAt c))
              (append_assoc content part (concat parts))
              (receive_parts-IsAt chunk_size parts (content ++ part) hash t small chunks
                (omega (arith, split, grown, whole)) ht))

-- What the server sends for a part of its file, the client writes at the place in its own file.
module _ (blake3 : Blake3) (codecs : Codecs) (lossless : IsLossless codecs) (faults : LocalFaults)
    (calm : IsCalm faults) (chunk_size : ℕ) (progress : 1 ≤ chunk_size)
    (small : chunk_size < 2 ^ 32) (remote : ReadFile)
    (fine : (at : ℕ) → remote.fails at ≡ false) where
  -- If nothing fails, a chunk has at least one byte and less than 4 GiB, and the part lies within
  -- the remote file, what `handle_get_chunked` sends makes `get_chunked` succeed, compressed or
  -- not, and the local file, which reaches at least to the place where the part is written, is what
  -- it was with that part replaced, once the last write has landed.
  pub get_chunked-handle_get_chunked :
      (algo : CompressionAlgo) (ending : Option BcmrError) (remote_offset local_offset size : ℕ)
      (before : Bytes)
      → remote_offset < 2 ^ 63
      → local_offset < 2 ^ 63
      → size < 2 ^ 63
      → remote_offset + size ≤ length remote.content
      → local_offset ≤ length before
      → (sent : List Message) × (handle_get_chunked blake3 codecs chunk_size algo remote_offset size
            (some remote)
            []
          ≡ (ok tt, sent))
        × ((t : GetState) × (get_chunked codecs faults size local_offset ending sent before
              ≡ (ok tt, t))
            × (landed faults t
                ≡ overlay
                    (take local_offset before ++ take size (drop remote_offset remote.content))
                    before))
  unfolding get_chunked Runs landed settle settled
  get_chunked-handle_get_chunked algo ending remote_offset local_offset size before far far' room
        within lo =
      let (parts, served, whole, chunks) =
        handle_get_chunked-frames blake3 codecs chunk_size algo progress remote fine remote_offset
          size far within in
      let front = take local_offset before in
      let front_size : length front ≡ local_offset = length-take_of_le local_offset before lo in
      let st : GetState = record {
        file = before;
        flight = none;
        position = local_offset;
        written = 0;
      } in
      let amount : length (concat parts) ≡ size =
        ap (λ (c : Bytes). length c) whole
        ∙ length-take_of_le size (drop remote_offset remote.content)
            (omega (arith, length-drop remote_offset remote.content, within)) in
      let (done, t, ran, h) =
        receive_parts-IsAt codecs faults calm size room before local_offset lossless algo ending
          chunk_size parts front none st small chunks (omega (arith, front_size, amount))
          (record {
            target = sym (take-append-drop local_offset before) ∙ rw front_size refl;
            position = sym front_size;
            written = omega (arith, front_size);
          }) in
      (
        frames codecs algo parts ++ (Message.ok none ∷ []),
        served,
        (
          t,
          simp (calm.opens, lt→ltb local_offset (2 ^ 63) far') ran,
          h.target ∙ ap (λ (c : Bytes). overlay (front ++ c) before) whole,
        ),
      )
