-- ===== src/Client/Put/Received.antt =====
-- A part of a file that the client sends and the server receives.
use bcmr.Prelude.{
  ℕ, zero, suc, ◌+◌, ◌-◌, ◌^◌, ◌≡◌, ◌≤◌, ◌<◌, refl, sym, ap, ◌∙◌, arith, Bool, false,
}
use bcmr.Prelude.{Option, none, some, List, [], ◌∷◌, ◌++◌, append-nil, append_assoc, lt→ltb}
use bcmr.Prelude.{
  length, length-append, take, drop, length-drop, length-take_of_le, take-append-drop, concat,
}
use bcmr.Bytes.Word.{Bytes}
use Prim.Native.Nat.{min}
use bcmr.Bytes.Read.{ReadFile, read}
use bcmr.Bytes.Write.{overlay, write_at-overlay}
use bcmr.Bytes.Digest.{Blake3}
use bcmr.Errors.{BcmrError, Result, ok, Exec, ◌>>=◌, bind_ok}
use bcmr.Protocol.Message.{Message, done}
use bcmr.Compress.{CompressionAlgo, Codecs, IsLossless, encode_block}
use bcmr.Serve.Put.{Faults, lift}
use bcmr.Serve.Put.Delivered.{IsCalm, block_messages}
use bcmr.Serve.PutChunked.{ChunkState, handle_put_chunked}
use bcmr.Serve.PutChunked.Unread.{Filled, written_blocks, handle_put_chunked-unread}
use bcmr.Serve.Get.{send, opened_at, chunked_round, chunked_loop}
use bcmr.Serve.Get.Parts.{frames, Chunks}
use bcmr.Serve.Get.Chunked.{loop-Sends}
use bcmr.Client.Put.{put_reply, part_round, part_loop, put_chunked}

module _ (blake3 : Blake3) (codecs : Codecs) (block_size : ℕ) (algo : CompressionAlgo) where
  part_round-chunked_round :
      (later : Exec (List Message) (Unit {0})) (part : Bytes)
      → part_round codecs block_size algo later part
        ≡ chunked_round blake3 codecs block_size algo later part
  unfolding part_round chunked_round
  part_round-chunked_round later [] = refl
  part_round-chunked_round later (b ∷ bs) = refl

  -- The loop does what that of the server does for a part that is asked for.
  part_loop-chunked_loop :
      (n : ℕ) (file : ReadFile) (at size : ℕ)
      → part_loop codecs block_size algo n file at size
        ≡ chunked_loop blake3 codecs block_size algo n file at size
  unfolding part_loop chunked_loop
  part_loop-chunked_loop zero file at zero = refl
  part_loop-chunked_loop zero file at (suc r) = refl
  part_loop-chunked_loop (suc n) file at zero = refl
  part_loop-chunked_loop (suc n) file at (suc r) =
      ap
        (λ (f : Bytes → Exec (List Message) (Unit {0})).
          lift (read file at (min (suc r) block_size)) >>= f)
        (λ i part.
          (part_round-chunked_round
                (part_loop codecs block_size algo n file (at + length part) (suc r - length part))
                part
              ∙ ap
                  (λ (later : Exec (List Message) (Unit {0})).
                    chunked_round blake3 codecs block_size algo later part)
                  (part_loop-chunked_loop n file (at + length part) (suc r - length part)))
            i)

frames-done :
    (codecs : Codecs) (algo : CompressionAlgo) (parts : List Bytes)
    → frames codecs algo parts ++ (done ∷ []) ≡ block_messages codecs algo parts
unfolding frames block_messages
frames-done codecs algo [] = refl
frames-done codecs algo (p ∷ parts) =
    ap (λ (ms : List Message). encode_block codecs algo p ∷ ms) (frames-done codecs algo parts)

written_blocks-overlay :
    (bs : List Bytes) (content file : Bytes)
    → written_blocks (length content) bs (overlay content file)
      ≡ overlay (content ++ concat bs) file
unfolding written_blocks concat
written_blocks-overlay [] content file = rw append-nil refl
written_blocks-overlay (b ∷ bs) content file =
    rw
      (
        write_at-overlay content b file,
        sym (length-append content b),
        written_blocks-overlay bs (content ++ b) file,
        append_assoc content b (concat bs),
      )
      refl

Chunks-Filled : (n : ℕ) (parts : List Bytes) → n < 2 ^ 32 → Chunks n parts → Filled parts
Chunks-Filled n [] small c = tt
Chunks-Filled n (p ∷ parts) small ((some_byte, short), c) =
    ((omega (arith, some_byte), omega (arith, short, small)), Chunks-Filled n parts small c)

module _ (blake3 : Blake3) (codecs : Codecs) (lossless : IsLossless codecs) (block_size : ℕ)
    (progress : 1 ≤ block_size) (small : block_size < 2 ^ 32) (algo : CompressionAlgo)
    (faults : Faults) (calm : IsCalm faults) where
  -- If nothing fails, a block has at least one byte and less than 4 GiB, and the part lies within the
  -- client's file, then what `put_chunked` sends behind its request makes `handle_put_chunked`
  -- answer Ok, compressed or not, with which `put_chunked` succeeds; and the server's file, which
  -- reaches at least to the place where the part is written, is then what it was with that part
  -- replaced.
  pub put_chunked-handle_put_chunked :
      (remote : Bytes) (sync : Bool) (offset size : ℕ) (local : ReadFile)
      (ending : Option BcmrError) (before : Bytes)
      → ((at : ℕ) → local.fails at ≡ false)
      → offset < 2 ^ 63
      → size < 2 ^ 63
      → offset + size ≤ length local.content
      → offset ≤ length before
      → (msgs : List Message) × (t : ChunkState) × (put_chunked codecs block_size algo remote offset
            size
            (some local)
            (ok (Message.ok none))
            []
          ≡ (ok tt, Message.put_chunked remote offset size ∷ msgs))
        × (handle_put_chunked codecs faults size sync offset ending msgs before
            ≡ (ok (Message.ok none), t))
        × (t.file ≡ overlay (take offset before ++ take size (drop offset local.content)) before)
  unfolding put_chunked opened_at put_reply lift send
  put_chunked-handle_put_chunked remote sync offset size local ending before fine far room within
        lo =
      let request : List Message = Message.put_chunked remote offset size ∷ [] in
      let h =
        loop-Sends blake3 codecs block_size algo progress local fine size offset size request
          (omega arith) within in
      let front = take offset before in
      let front_size : length front ≡ offset = length-take_of_le offset before lo in
      let amount : length (concat h.parts) ≡ size =
        ap (λ (c : Bytes). length c) h.whole
        ∙ length-take_of_le size (drop offset local.content)
            (omega (arith, length-drop offset local.content, within)) in
      let opened : opened_at offset (some local) ≡ ok local =
        rw (lt→ltb offset (2 ^ 63) far) refl in
      let base : overlay front before ≡ before = rw front_size (take-append-drop offset before) in
      let (t, ran, _, file) =
        handle_put_chunked-unread codecs faults size calm room lossless algo ending sync offset
          h.parts before far (Chunks-Filled block_size h.parts small h.chunks) amount in
      (
        block_messages codecs algo h.parts,
        t,
        bind_ok _ _ refl (
            bind_ok _ _ (ap (λ (r : Result ReadFile). (r, request)) opened) (
              bind_ok _ _
                (ap (λ (m : Exec (List Message) (Unit {0})). m request)
                    (part_loop-chunked_loop blake3 codecs block_size algo size local offset size)
                  ∙ h.result)
                (bind_ok _ _ refl (
                  ap (λ (ms : List Message). (ok tt, Message.put_chunked remote offset size ∷ ms))
                    (frames-done codecs algo h.parts))))),
        ran,
        file
            ∙ ap (λ (f : Bytes). written_blocks offset h.parts f) (sym base)
            ∙ ap (λ (k : ℕ). written_blocks k h.parts (overlay front before)) (sym front_size)
            ∙ written_blocks-overlay h.parts front before
            ∙ ap (λ (c : Bytes). overlay (front ++ c) before) h.whole,
      )
