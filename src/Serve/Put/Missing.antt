-- ===== src/Serve/Put/Missing.antt =====
-- The blocks that the client sends, because the server has not kept them.
use bcmr.Prelude.{ℕ, suc, ◌+◌, ◌^◌, ◌≡◌, ◌≤◌, ◌<◌, refl, sym, ap, ◌∙◌, arith, true, false}
use bcmr.Prelude.{ltb, Bool-cases, inl, inr, Option, some, List, [], ◌∷◌, ◌++◌}
use bcmr.Prelude.{length, length-append, drop, length-drop, concat, append_assoc, append-nil}
use bcmr.Prelude.{if◌then◌else◌}
use bcmr.Bytes.Word.{Bytes}
use bcmr.Bytes.Digest.{Blake3}
use bcmr.Errors.{BcmrError, Result, ok}
use bcmr.Errors.Runs.{Runs, Runs-ok, Runs-bind, Runs-step}
use bcmr.Protocol.Message.{Message, done}
use bcmr.Compress.{CompressionAlgo, Codecs, IsLossless, SentAs, encode_block, encode_block_cases}
use bcmr.Serve.Put.{DedupState, PutState, Faults, is_missing, lift}
use bcmr.Serve.Put.{cas_write, next, store_missing, current, catch_up, consume_block, put_loop}
use bcmr.Serve.Put.Delivered.{IsCalm, Short}
use bcmr.Serve.Put.Kept.{digests, Apart, at_cursor, At, AllKept, take_block-At, write-Stored}
use bcmr.Serve.Put.Kept.{next-At, take_cached_while-At}

-- The blocks that the bits say are missing, from the `i`-th one on, and the end.
unfoldable pub missing_frames :
    Codecs → CompressionAlgo → DedupState → ℕ → List Bytes → List Message
missing_frames codecs algo d i [] = done ∷ []
missing_frames codecs algo d i (b ∷ bs) =
    let later = missing_frames codecs algo d (suc i) bs in
    if is_missing d i then encode_block codecs algo b ∷ later else later

module _ (blake3 : Blake3) (codecs : Codecs) (faults : Faults) (declared_size : ℕ)
    (calm : IsCalm faults) (room : declared_size < 2 ^ 63) (Known : Bytes → Type 0)
    (apart : Apart blake3 Known) (hashes : List Bytes) (bits : Bytes) where
  abbrev pub Caught : ℕ → ℕ → Bytes → List Bytes → PutState → Type 0
  Caught = At blake3 codecs faults declared_size calm room Known apart hashes bits

  abbrev pub cursor_at : ℕ → DedupState
  cursor_at = at_cursor blake3 codecs faults declared_size calm room Known apart hashes bits

  abbrev pub Kept : ℕ → List Bytes → Type 0
  Kept = AllKept blake3 codecs faults declared_size calm room Known apart hashes bits

  store_missing-At :
      (k : ℕ) (content b : Bytes) (left : List Bytes) (st : PutState)
      → is_missing (cursor_at 0) k ≡ true
      → Caught k k content (b ∷ left) st
      → Runs
          (store_missing blake3 codecs faults declared_size b (some (cursor_at k)) st)
          (Caught (suc k) (suc k) content left)
  unfolding store_missing cas_write is_missing digests
  store_missing-At k content b left st missing h =
      let size : length (drop k hashes) ≡ suc (length (digests blake3 left)) =
        ap (λ (xs : List Bytes). length xs) h.stored.rest in
      let before_end : ltb k (length hashes) ≡ true = ground (arith, size, length-drop k hashes) in
      rw (before_end, missing)
        (Runs-step _ _ st _ tt (Caught (suc k) (suc k) content left) refl (
          next-At blake3 codecs faults declared_size calm room Known apart hashes bits k (suc k)
            content left _
            (record {
              dedup = h.dedup;
              file = h.file;
              position = h.position;
              hashed = h.hashed;
              written = h.written;
              stored =
                  write-Stored blake3 codecs faults declared_size calm room Known apart hashes bits
                    k faults.now (faults.unwritable (blake3.hash b)) b left st.cas h.stored;
              sent = h.sent;
            })))

  pub current-At :
      (k from : ℕ) (content : Bytes) (left : List Bytes) (st : PutState)
      → Caught k from content left st
      → current blake3 codecs faults declared_size st ≡ (ok (some (cursor_at k)), st)
  unfolding current
  current-At k from content left st h = ap (λ (d : Option DedupState). (ok d, st)) h.dedup

  -- A block that is missing is received: the blocks before it are in the store.
  consume_block-At :
      (pending : List Bytes) (i k : ℕ) (content b : Bytes) (left : List Bytes) (st : PutState)
      → k ≡ i + length pending
      → Kept i pending
      → is_missing (cursor_at 0) k ≡ true
      → length content + length (concat pending) + length b ≤ declared_size
      → Caught i i content (pending ++ b ∷ left) st
      → Runs
          (consume_block blake3 codecs faults declared_size b st)
          (Caught (suc k) (suc k) ((content ++ concat pending) ++ b) left)
  unfolding consume_block catch_up
  consume_block-At pending i k content b left st e kept missing fits h =
      let so_far = content ++ concat pending in
      Runs-step _ _ st st (some (cursor_at i)) _ (current-At i i content (pending ++ b ∷ left) st h)
        (Runs-bind _ _ st (Caught (suc k) (suc k) so_far left) _
          (Runs-bind _ _ st (Caught k k so_far (b ∷ left)) _
            (rw h.stored.rest (
              take_cached_while-At blake3 codecs faults declared_size calm room Known apart hashes
                bits pending i i k content b left st e kept missing (omega (arith, fits)) h))
            (λ _ t ht.
              Runs-step _ _ t t (some (cursor_at k)) _ (current-At k k so_far (b ∷ left) t ht)
                (store_missing-At k so_far b left t missing ht)))
          (λ _ t ht.
            take_block-At blake3 codecs faults declared_size calm room Known apart hashes bits
              (suc k) (suc k) so_far b left t
              (omega (arith, fits, length-append content (concat pending))) ht))

  -- The loop is over: what is left of the file is in the store.
  pub record Mid (whole : Bytes) (st : PutState) : Type 0 where
    pub place : ℕ
    pub content : Bytes
    pub pending : List Bytes
    pub caught : Caught place place content pending st
    pub kept : Kept place pending
    pub sum : content ++ concat pending ≡ whole

  Kept-snoc :
      (i k : ℕ) (bs : List Bytes) (b : Bytes)
      → k ≡ i + length bs
      → Kept i bs
      → is_missing (cursor_at 0) k ≡ false
      → Kept i (bs ++ (b ∷ []))
  unfolding AllKept
  Kept-snoc i k [] b e kept there = (let here : k ≡ i = omega (arith, e) in rw here at there, tt)
  Kept-snoc i k (x ∷ bs) b e (h, kept) there =
      (h, Kept-snoc (suc i) k bs b (omega (arith, e)) kept there)

  concat-append : (xs ys : List Bytes) → concat (xs ++ ys) ≡ concat xs ++ concat ys
  unfolding concat
  concat-append [] ys = refl
  concat-append (x ∷ xs) ys = rw (concat-append xs ys, append_assoc) refl

  module _ (lossless : IsLossless codecs) (algo : CompressionAlgo) (ending : Option BcmrError)
      (whole : Bytes) (total : length whole ≡ declared_size) where
    message-At :
        (b : Bytes) (msg : Message) (msgs : List Message) (st : PutState) (P Q : PutState → Type 0)
        → SentAs codecs b msg
        → Runs (consume_block blake3 codecs faults declared_size b st) P
        → ((t : PutState)
            → P t
            → Runs (put_loop blake3 codecs faults declared_size ending msgs t) Q)
        → Runs (put_loop blake3 codecs faults declared_size ending (msg ∷ msgs) st) Q
    unfolding put_loop lift
    message-At b msg msgs st P Q (inl plain) taken next =
        rw plain (Runs-bind _ _ st P Q taken (λ _ t ht. next t ht))
    message-At b msg msgs st P Q (inr (a, size, payload, is, unpacked, _)) taken next = rw is (
        Runs-step _ _ st st b Q (ap (λ (o : Result Bytes). (o, st)) unpacked)
          (Runs-bind _ _ st P Q taken (λ _ t ht. next t ht)))

    pub put_loop-Mid :
        (rest pending : List Bytes) (i k : ℕ) (content : Bytes) (st : PutState)
        → k ≡ i + length pending
        → Kept i pending
        → content ++ concat (pending ++ rest) ≡ whole
        → Caught i i content (pending ++ rest) st
        → Short rest
        → Runs
            (put_loop blake3 codecs faults declared_size ending
              (missing_frames codecs algo (cursor_at 0) k rest)
              st)
            (Mid whole)
    unfolding put_loop missing_frames AllKept concat
    put_loop-Mid [] pending i k content st e kept sum h short =
        let no_more = append-nil pending in
        Runs-ok tt st (Mid whole) (record {
          place = i;
          content = content;
          pending = pending;
          caught = rw no_more at h;
          kept = kept;
          sum = rw no_more at sum;
        })
    put_loop-Mid (b ∷ rest) pending i k content st e kept sum h (hb, short) =
        elim (Bool-cases (is_missing (cursor_at 0) k)) [
          | inl missing ↦
              let parts : (content ++ concat pending) ++ (b ++ concat rest) ≡ whole =
                append_assoc content (concat pending) (b ++ concat rest)
                ∙ ap (λ (xs : Bytes). content ++ xs) (sym (concat-append pending (b ∷ rest)))
                ∙ sum in
              let size = ap (λ (xs : Bytes). length xs) parts in
              let front = length-append content (concat pending) in
              let back = length-append b (concat rest) in
              let all = length-append (content ++ concat pending) (b ++ concat rest) in
              rw missing (
                message-At b _ _ st (Caught (suc k) (suc k) ((content ++ concat pending) ++ b) rest)
                  (Mid whole) (encode_block_cases codecs lossless algo b hb)
                  (consume_block-At pending i k content b rest st e kept missing
                    (omega (arith, size, front, back, all, total)) h)
                  (λ t ht.
                    put_loop-Mid rest [] (suc k) (suc k) ((content ++ concat pending) ++ b) t
                      (omega arith) tt
                      (append_assoc (content ++ concat pending) b (concat rest) ∙ parts) ht short))
          | inr there ↦
              let again : (pending ++ (b ∷ [])) ++ rest ≡ pending ++ b ∷ rest =
                append_assoc pending (b ∷ []) rest in
              rw there (
                put_loop-Mid rest (pending ++ (b ∷ [])) i (suc k) content st
                  (omega (arith, e, length-append pending (b ∷ [])))
                  (Kept-snoc i k pending b e kept there) (rw again sum) (rw again h) short)
        ]
