-- ===== src/Serve/Get/Chunked.antt =====
-- What `handle_get_chunked` sends, and what it does where the file ends too early.
use bcmr.Prelude.{ℕ, zero, suc, ◌+◌, ◌-◌, ◌^◌, ◌≡◌, ◌≤◌, ◌<◌, refl, sym, ap, ◌∙◌, arith, false}
use bcmr.Prelude.{
  none, some, List, [], ◌∷◌, ◌++◌, append_assoc, append-nil, ltb, lt→ltb, ltb→lt, ltb→le,
  Bool-cases, inl, inr,
}
use bcmr.Prelude.{length, take, drop, concat}
use Prim.Native.Nat.{min}
use mathlib.Core.Path.{subst}
use bcmr.Bytes.Word.{Bytes}
use bcmr.Bytes.Write.{drop_long}
use bcmr.Bytes.Read.{ReadFile, Reads, read-Reads}
use bcmr.Bytes.Digest.{Blake3}
use bcmr.Errors.{Result, ok, err, invalid_input, Exec, bind_ok, bind_err}
use bcmr.Protocol.Message.{Message}
use bcmr.Compress.{CompressionAlgo, Codecs, encode_block}
use bcmr.Serve.Put.{lift}
use bcmr.Serve.Get.{send, opened_at, chunked_round, chunked_loop, handle_get_chunked}
use bcmr.Serve.Get.Parts.{frames, Chunks}
use bcmr.Serve.Get.Hashed.{take_part}

take-nil : (n : ℕ) → take {A = ℕ} n [] ≡ []
unfolding take
take-nil zero = refl
take-nil (suc n) = refl

module _ (blake3 : Blake3) (codecs : Codecs) (chunk_size : ℕ) (algo : CompressionAlgo)
    (progress : 1 ≤ chunk_size) (file : ReadFile) (fine : (at : ℕ) → file.fails at ≡ false) where
  -- `size` bytes from the place on are sent behind `sent`, with the result `r`.
  pub record Sends (at size : ℕ) (sent : List Message) (o : Result (Unit {0}))
      (r : Result (Unit {0}) × List Message) : Type 0 where
    pub parts : List Bytes
    pub result : r ≡ (o, sent ++ frames codecs algo parts)
    pub whole : concat parts ≡ take size (drop at file.content)
    pub chunks : Chunks chunk_size parts

  round-Sends :
      (at size : ℕ) (part : Bytes) (sent : List Message) (o : Result (Unit {0}))
      (later : Exec (List Message) (Unit {0}))
      → Reads file at (min size chunk_size) part
      → 1 ≤ length part
      → ((sent' : List Message)
          → Sends (at + length part) (size - length part) sent' o (later sent'))
      → Sends at size sent o (chunked_round blake3 codecs chunk_size algo later part sent)
  unfolding chunked_round send frames concat
  round-Sends at size [] sent o later r filled next = absurd (omega arith)
  round-Sends at size (b ∷ bs) sent o later r filled next =
      let part = b ∷ bs in
      let frame = encode_block codecs algo part in
      let h = next (sent ++ (frame ∷ [])) in
      record {
        parts = part ∷ h.parts;
        result =
            bind_ok _ _ refl h.result
            ∙ ap (λ (msgs : List Message). (o, msgs))
                (append_assoc sent (frame ∷ []) (frames codecs algo h.parts));
        whole =
            ap (λ (xs : Bytes). part ++ xs) h.whole
            ∙ sym (
                take_part size part (drop (at + length part) file.content) (omega (arith, r.short)))
            ∙ ap (λ (xs : Bytes). take size xs) r.rest;
        chunks = ((filled, omega (arith, r.short)), h.chunks);
      }

  pub loop-Sends :
      (fuel at size : ℕ) (sent : List Message)
      → size ≤ fuel
      → at + size ≤ length file.content
      → Sends at size sent
          (ok tt)
          (chunked_loop blake3 codecs chunk_size algo fuel file at size sent)
  unfolding chunked_loop lift take concat frames
  loop-Sends fuel at zero sent enough within = record {
    parts = [];
    result = rw (append-nil sent) refl;
    whole = refl;
    chunks = tt;
  }
  loop-Sends zero at (suc n) sent enough within = absurd (omega arith)
  loop-Sends (suc fuel) at (suc n) sent enough within =
      let r = read-Reads file at (min (suc n) chunk_size) (fine at) in
      let filled = r.progress (omega (arith, progress)) (omega (arith, within)) in
      subst (λ (q : Result (Unit {0}) × List Message). Sends at (suc n) sent (ok tt) q)
        (sym (bind_ok _ _ (ap (λ (o : Result Bytes). (o, sent)) r.result) refl))
        (round-Sends at (suc n) _ sent (ok tt) _ r filled (λ sent'.
          loop-Sends fuel _ _ sent' (omega (arith, enough, filled))
            (omega (arith, within, r.size, r.short))))

  -- Nothing can be read.
  ended-Sends :
      (at size : ℕ) (part : Bytes) (sent : List Message) (later : Exec (List Message) (Unit {0}))
      → length file.content ≤ at
      → length part ≤ length file.content - at
      → Sends at size sent
          (err invalid_input)
          (chunked_round blake3 codecs chunk_size algo later part sent)
  unfolding chunked_round frames concat
  ended-Sends at size (b ∷ bs) sent later behind none_left = absurd (omega arith)
  ended-Sends at size [] sent later behind none_left = record {
    parts = [];
    result = rw (append-nil sent) refl;
    whole = rw (drop_long at file.content behind) (sym (take-nil size));
    chunks = tt;
  }

  -- The file ends before `size` bytes.
  loop-Ends :
      (fuel at size : ℕ) (sent : List Message)
      → size ≤ fuel
      → 1 ≤ size
      → length file.content < at + size
      → Sends at size sent
          (err invalid_input)
          (chunked_loop blake3 codecs chunk_size algo fuel file at size sent)
  unfolding chunked_loop lift
  loop-Ends fuel at zero sent enough wanted beyond = absurd (omega arith)
  loop-Ends zero at (suc n) sent enough wanted beyond = absurd (omega arith)
  loop-Ends (suc fuel) at (suc n) sent enough wanted beyond =
      let r = read-Reads file at (min (suc n) chunk_size) (fine at) in
      subst (λ (q : Result (Unit {0}) × List Message). Sends at (suc n) sent (err invalid_input) q)
        (sym (bind_ok _ _ (ap (λ (o : Result Bytes). (o, sent)) r.result) refl))
        (elim (Bool-cases (ltb at (length file.content))) [
          | inl before ↦
              let filled = r.progress (omega (arith, progress)) (ltb→lt _ _ before) in
              round-Sends at (suc n) _ sent (err invalid_input) _ r filled (λ sent'.
                loop-Ends fuel _ _ sent' (omega (arith, enough, filled))
                  (omega (arith, beyond, r.size, ltb→lt _ _ before))
                  (omega (arith, beyond, r.short)))
          | inr behind ↦ ended-Sends at (suc n) _ sent _ (ltb→le _ _ behind) r.size
        ])

  -- If no read fails and a chunk has at least one byte, `handle_get_chunked` sends the part of the
  -- file that was asked for, in parts that are not empty and not longer than a chunk, and then an
  -- Ok.
  pub handle_get_chunked-frames :
      (offset size : ℕ)
      → offset < 2 ^ 63
      → offset + size ≤ length file.content
      → (parts : List Bytes) × (handle_get_chunked blake3 codecs chunk_size algo offset size
            (some file)
            []
          ≡ (ok tt, frames codecs algo parts ++ (Message.ok none ∷ [])))
        × (concat parts ≡ take size (drop offset file.content))
        × Chunks chunk_size parts
  unfolding handle_get_chunked opened_at lift send
  handle_get_chunked-frames offset size room within =
      let h = loop-Sends size offset size [] (omega arith) within in
      (
        h.parts,
        rw (lt→ltb offset (2 ^ 63) room) (bind_ok _ _ refl (bind_ok _ _ h.result refl)),
        h.whole,
        h.chunks,
      )

  -- If no read fails and a chunk has at least one byte, but the file ends before the last of the
  -- bytes that were asked for, at least one, `handle_get_chunked` sends what there is, without an
  -- Ok, and fails.
  pub handle_get_chunked-ends :
      (offset size : ℕ)
      → offset < 2 ^ 63
      → 1 ≤ size
      → length file.content < offset + size
      → (parts : List Bytes) × (handle_get_chunked blake3 codecs chunk_size algo offset size
            (some file)
            []
          ≡ (err invalid_input, frames codecs algo parts))
        × (concat parts ≡ take size (drop offset file.content))
        × Chunks chunk_size parts
  unfolding handle_get_chunked opened_at lift send
  handle_get_chunked-ends offset size room wanted beyond =
      let h = loop-Ends size offset size [] (omega arith) wanted beyond in
      (
        h.parts,
        rw (lt→ltb offset (2 ^ 63) room) (bind_ok _ _ refl (bind_err _ _ h.result)),
        h.whole,
        h.chunks,
      )
