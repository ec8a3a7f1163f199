-- ===== src/Serve/Get/Parts.antt =====
-- What `handle_get` and `handle_get_chunked` send.
use bcmr.Prelude.{ℕ, zero, suc, ◌+◌, ◌-◌, ◌^◌, ◌≡◌, ◌≤◌, ◌<◌, refl, sym, ap, ◌∙◌, arith, false}
use bcmr.Prelude.{Bool, some, List, [], ◌∷◌, ◌++◌, append_assoc, append-nil, lt→ltb}
use bcmr.Prelude.{length, drop, All, concat}
use mathlib.Core.Path.{subst}
use bcmr.Bytes.Word.{Bytes}
use bcmr.Bytes.Read.{ReadFile, Reads, read-Reads, Reads-end}
use bcmr.Bytes.Digest.{Blake3}
use bcmr.Errors.{Result, ok, Exec, bind_ok}
use bcmr.Protocol.Message.{Message}
use bcmr.Compress.{CompressionAlgo, Codecs, encode_block}
use bcmr.Serve.Put.{lift}
use bcmr.Serve.Get.{send, opened_at, get_round, get_loop, reply_hash, handle_get}

-- The messages that the parts of a file are sent as.
unfoldable pub frames : Codecs → CompressionAlgo → List Bytes → List Message
frames codecs algo [] = []
frames codecs algo (part ∷ parts) = encode_block codecs algo part ∷ frames codecs algo parts

-- No part is empty, and none is longer than a chunk.
abbrev pub Chunks : ℕ → List Bytes → Type 0
Chunks chunk_size parts = All (λ part. (1 ≤ length part) × (length part ≤ chunk_size)) parts

abbrev replied : Bytes → List Message → Result Bytes × List Message
replied text sent = (ok text, sent)

replied_eq : (x y : Bytes) (s t : List Message) → x ≡ y → s ≡ t → replied x s ≡ replied y t
replied_eq x y s t e e' = rw (e, e') refl

module _ (blake3 : Blake3) (codecs : Codecs) (chunk_size : ℕ) (algo : CompressionAlgo)
    (progress : 1 ≤ chunk_size) (file : ReadFile) (fine : (at : ℕ) → file.fails at ≡ false) where
  -- What the rest of the file is sent as, behind `sent`.
  record Sends (at : ℕ) (text : Bytes) (sent : List Message) (r : Result Bytes × List Message)
      : Type 0 where
    parts : List Bytes
    result : r ≡ (ok (text ++ drop at file.content), sent ++ frames codecs algo parts)
    whole : concat parts ≡ drop at file.content
    chunks : Chunks chunk_size parts

  round-Sends :
      (at : ℕ) (text part : Bytes) (sent : List Message) (later : Bytes → Exec (List Message) Bytes)
      → Reads file at chunk_size part
      → ((text' : Bytes) (sent' : List Message)
          → 1 ≤ length part
          → Sends (at + length part) text' sent' (later text' sent'))
      → Sends at text sent (get_round blake3 codecs chunk_size algo later text part sent)
  unfolding get_round send frames concat
  round-Sends at text [] sent later r next =
      let ended : drop at file.content ≡ [] = Reads-end file at chunk_size progress r in
      record {
        parts = [];
        result = rw (ended, append-nil text, append-nil sent) refl;
        whole = sym ended;
        chunks = tt;
      }
  round-Sends at text (b ∷ bs) sent later r next =
      let part = b ∷ bs in
      let frame = encode_block codecs algo part in
      let h = next (text ++ part) (sent ++ (frame ∷ [])) (omega arith) in
      record {
        parts = part ∷ h.parts;
        result =
            bind_ok _ _ refl h.result
            ∙ replied_eq _ _ _ _
                (append_assoc text part (drop (at + length part) file.content)
                  ∙ ap (λ (xs : Bytes). text ++ xs) r.rest)
                (append_assoc sent (frame ∷ []) (frames codecs algo h.parts));
        whole = ap (λ (xs : Bytes). part ++ xs) h.whole ∙ r.rest;
        chunks = ((omega arith, r.short), h.chunks);
      }

  get_loop-Sends :
      (fuel at : ℕ) (text : Bytes) (sent : List Message)
      → length file.content - at < fuel
      → Sends at text sent (get_loop blake3 codecs chunk_size algo fuel file at text sent)
  unfolding get_loop lift
  get_loop-Sends zero at text sent enough = absurd (omega arith)
  get_loop-Sends (suc fuel) at text sent enough =
      let r = read-Reads file at chunk_size (fine at) in
      subst (λ (q : Result Bytes × List Message). Sends at text sent q)
        (sym (bind_ok _ _ (ap (λ (o : Result Bytes). (o, sent)) r.result) refl))
        (round-Sends at text _ sent _ r (λ text' sent' filled.
          get_loop-Sends fuel _ text' sent' (omega (arith, enough, filled, r.size))))

  -- If no read fails, and a chunk has at least one byte, `handle_get` sends the file from the
  -- offset on, in parts that are not empty and not longer than a chunk, and then the digest of all
  -- of them, or none where the client did not ask for it.
  pub handle_get-frames :
      (offset : ℕ) (fast : Bool)
      → offset < 2 ^ 63
      → (parts : List Bytes) × (handle_get blake3 codecs chunk_size algo offset fast (some file) []
          ≡ (
            ok tt,
            frames codecs algo parts
                ++ (Message.ok
                      (reply_hash blake3 codecs chunk_size algo fast (drop offset file.content))
                    ∷ []),
          ))
        × (concat parts ≡ drop offset file.content)
        × Chunks chunk_size parts
  unfolding handle_get opened_at lift send
  handle_get-frames offset fast room =
      let h = get_loop-Sends (suc (length file.content)) offset [] [] (omega arith) in
      (
        h.parts,
        rw (lt→ltb offset (2 ^ 63) room) (bind_ok _ _ refl (bind_ok _ _ h.result refl)),
        h.whole,
        h.chunks,
      )
