-- ===== src/Serve/Put/Delivered.antt =====
-- A client that sends a file in blocks, and nothing that fails.
use bcmr.Prelude.{ℕ, ◌+◌, ◌%◌, ◌^◌, ◌≡◌, ◌≤◌, ◌<◌, refl, ap, ◌∙◌, arith, true, false}
use bcmr.Prelude.{Option, none, some, List, [], ◌∷◌, ◌++◌, append_assoc, append-nil}
use bcmr.Prelude.{concat, ltb, ==_iff, inl, inr, length, length-append, All}
use bcmr.Bytes.Word.{Bytes}
use bcmr.Bytes.Digest.{Blake3}
use bcmr.Errors.{BcmrError, Result, ok, bind_ok}
use bcmr.Protocol.Message.{Message, done}
use bcmr.Session.Store.{to_hex}
use bcmr.Compress.{CompressionAlgo, Codecs, IsLossless, SentAs, encode_block, encode_block_cases}
use bcmr.Cas.{Cas}
use bcmr.Serve.Put.{PutState, Faults, update, lift, enforce_write_bound, write_all}
use bcmr.Serve.Put.{hash_and_write, take_block, current, catch_up, consume_block, put_loop, receive}
use bcmr.Serve.Put.{flush_remaining_cas_blocks, finish, reply_hash, start, put_opened, handle_put}
use bcmr.Bytes.Write.{write_at_end}

-- The messages that the blocks are sent as.
unfoldable pub block_messages : Codecs → CompressionAlgo → List Bytes → List Message
block_messages codecs algo [] = done ∷ []
block_messages codecs algo (b ∷ bs) = encode_block codecs algo b ∷ block_messages codecs algo bs

-- Every block is shorter than 4 GiB.
abbrev pub Short : List Bytes → Type 0
Short bs = All (λ b. length b < 2 ^ 32) bs

-- Nothing fails.
pub record IsCalm (faults : Faults) : Type 0 where
  pub opens : faults.opens ≡ true
  pub flushes : faults.flushes ≡ true
  pub whole : (position : ℕ) → faults.cut position ≡ none

module _ (blake3 : Blake3) (codecs : Codecs) (faults : Faults) (declared_size : ℕ)
    (calm : IsCalm faults) (room : declared_size < 2 ^ 63) where
  -- `content` was received, and there is no dedup.
  abbrev got : Cas → Bytes → PutState
  got cas content = record {
    file = content;
    position = length content;
    hashed = some content;
    written = length content;
    cas = cas;
    dedup = none;
    sent = [];
  }

  enforce_write_bound-ok :
      (written incoming : ℕ)
      → written + incoming ≤ declared_size
      → enforce_write_bound blake3 codecs faults declared_size written incoming ≡ ok tt
  unfolding enforce_write_bound
  enforce_write_bound-ok written incoming fits = ground arith

  hash_and_write-got :
      (cas : Cas) (content block : Bytes)
      → length content + length block ≤ declared_size
      → hash_and_write blake3 codecs faults declared_size block (got cas content)
        ≡ (ok tt, got cas (content ++ block))
  unfolding hash_and_write write_all update
  hash_and_write-got cas content block fits =
      rw
        (
          calm.whole (length content),
          write_at_end block content,
          sum (length content) (length block) fits,
          length-append content block,
        )
        refl
    where
      sum : (n k : ℕ) → n + k ≤ declared_size → (n + k) % 2 ^ 64 ≡ n + k
      sum n k h = omega arith

  take_block-got :
      (cas : Cas) (content block : Bytes)
      → length content + length block ≤ declared_size
      → take_block blake3 codecs faults declared_size block (got cas content)
        ≡ (ok tt, got cas (content ++ block))
  unfolding take_block lift
  take_block-got cas content block fits =
      bind_ok _ _
        (ap (λ (r : Result (Unit {0})). (r, got cas content))
          (enforce_write_bound-ok (length content) (length block) fits))
        (hash_and_write-got cas content block fits)

  consume_block-got :
      (cas : Cas) (content block : Bytes)
      → length content + length block ≤ declared_size
      → consume_block blake3 codecs faults declared_size block (got cas content)
        ≡ (ok tt, got cas (content ++ block))
  unfolding consume_block current catch_up
  consume_block-got cas content block fits =
      bind_ok _ _ refl (bind_ok _ _ refl (take_block-got cas content block fits))

  module _ (lossless : IsLossless codecs) (algo : CompressionAlgo) (ending : Option BcmrError)
      (cas : Cas) where
    message-got :
        (block content : Bytes) (msg : Message) (msgs : List Message)
        {r : Result (Unit {0}) × PutState}
        → SentAs codecs block msg
        → length content + length block ≤ declared_size
        → put_loop blake3 codecs faults declared_size ending msgs (got cas (content ++ block)) ≡ r
        → put_loop blake3 codecs faults declared_size ending (msg ∷ msgs) (got cas content) ≡ r
    unfolding put_loop lift
    message-got block content msg msgs (inl plain) fits later =
        rw plain (bind_ok _ _ (consume_block-got cas content block fits) later)
    message-got block content msg msgs (inr (a, size, payload, is, unpacked, _)) fits later =
        rw is (
          bind_ok _ _ (ap (λ (o : Result Bytes). (o, got cas content)) unpacked)
            (bind_ok _ _ (consume_block-got cas content block fits) later))

    put_loop-got :
        (bs : List Bytes) (content : Bytes)
        → Short bs
        → length content + length (concat bs) ≤ declared_size
        → put_loop blake3 codecs faults declared_size ending
            (block_messages codecs algo bs)
            (got cas content)
          ≡ (ok tt, got cas (content ++ concat bs))
    unfolding block_messages concat put_loop
    put_loop-got [] content h fits = rw append-nil refl
    put_loop-got (b ∷ bs) content (hb, h) fits =
        let size = length-append b (concat bs) in
        let grown = length-append content b in
        message-got b content _ _ (encode_block_cases codecs lossless algo b hb)
          (omega (arith, size, fits))
          (put_loop-got bs (content ++ b) h (omega (arith, size, grown, fits))
            ∙ rw append_assoc refl)

    receive-put_loop :
        (cap_bytes : Option ℕ) (bs : List Bytes) (st : PutState)
        → Short bs
        → receive blake3 codecs faults declared_size cap_bytes 0 ending
            (block_messages codecs algo bs)
            st
          ≡ put_loop blake3 codecs faults declared_size ending (block_messages codecs algo bs) st
    unfolding receive block_messages
    receive-put_loop cap_bytes [] st h = refl
    receive-put_loop cap_bytes (b ∷ bs) st (hb, h) =
        elim (encode_block_cases codecs lossless algo b hb) [
          | inl plain ↦ rw plain refl
          | inr (a, size, payload, is, _, _) ↦ rw is refl
        ]

    finish-got :
        (content : Bytes)
        → length content ≡ declared_size
        → finish blake3 codecs faults declared_size (got cas content)
          ≡ (ok (Message.ok (some (to_hex (blake3.hash content)))), got cas content)
    unfolding finish reply_hash
    finish-got content size =
        simp ((==_iff (length content) declared_size).1 size, calm.flushes) refl

    -- If nothing fails, a file that is sent in blocks, each below 4 GiB and compressed or not, and
    -- whose length below 2 ^ 63 was declared, is received: the put succeeds, the file is what the
    -- blocks make up, and the hash that is reported is the hash of it.
    pub handle_put-block_messages :
        (cap_bytes : Option ℕ) (bs : List Bytes) (before : Bytes)
        → Short bs
        → length (concat bs) ≡ declared_size
        → (t : PutState) × (handle_put blake3 codecs faults declared_size cap_bytes 0 ending
              (block_messages codecs algo bs)
              before
              cas
            ≡ (ok (Message.ok (some (to_hex (blake3.hash (concat bs))))), t))
          × (t.file ≡ concat bs)
    unfolding handle_put put_opened start current flush_remaining_cas_blocks
    handle_put-block_messages cap_bytes bs before h size =
        let all = put_loop-got bs [] h (omega (arith, size)) in
        (
          got cas (concat bs),
          simp (calm.opens, ltb_zero)
              (bind_ok _ _ (receive-put_loop cap_bytes bs (got cas []) h ∙ all)
                (bind_ok _ _ refl (bind_ok _ _ refl (finish-got (concat bs) size)))),
          refl,
        )
      where
        ltb_zero : ltb declared_size 0 ≡ false
        ltb_zero = ground arith
