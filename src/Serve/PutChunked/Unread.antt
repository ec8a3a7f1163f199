-- ===== src/Serve/PutChunked/Unread.antt =====
-- What `handle_put_chunked` leaves on the connection when the client has sent all its bytes.
use bcmr.Prelude.{concat, ℕ, ◌+◌, ◌%◌, ◌^◌, ◌≡◌, ◌≤◌, ◌<◌, refl, ap, arith, false}
use bcmr.Prelude.{Option, none, List, [], ◌∷◌, ltb, ◌&&◌, Bool, true, lt→ltb, le→ltb, ◌==◌, ==_iff}
use bcmr.Prelude.{inl, inr, length, length-append, All}
use bcmr.Bytes.Word.{Bytes}
use bcmr.Errors.{BcmrError, Result, ok, Exec, bind_ok}
use bcmr.Protocol.Message.{Message, done}
use bcmr.Compress.{CompressionAlgo, Codecs, IsLossless, SentAs, encode_block_cases}
use bcmr.Serve.Put.{Faults, lift}
use bcmr.Bytes.Write.{write_at}
use bcmr.Serve.Put.Delivered.{block_messages, IsCalm}
use bcmr.Serve.PutChunked.{ChunkState, write_chunk, take_chunk, on_message, chunk_loop}
use bcmr.Serve.PutChunked.{finish_chunked, handle_put_chunked}

-- Every block has a byte, and is shorter than 4 GiB.
abbrev pub Filled : List Bytes → Type 0
Filled bs = All (λ b. (0 < length b) × (length b < 2 ^ 32)) bs

-- A file after blocks are written one behind the other from a place on.
unfoldable pub written_blocks : (at : ℕ) → List Bytes → Bytes → Bytes
written_blocks at [] file = file
written_blocks at (b ∷ bs) file = written_blocks (at + length b) bs (write_at at b file)

module _ (codecs : Codecs) (faults : Faults) (declared : ℕ) (calm : IsCalm faults)
    (room : declared < 2 ^ 63) where
  abbrev moved : Bytes → ChunkState → ChunkState
  moved chunk st = record st {
    file = write_at st.position chunk st.file;
    position = st.position + length chunk;
    written = st.written + length chunk;
  }

  take_chunk-ok :
      (chunk : Bytes) (st : ChunkState)
      → st.written + length chunk ≤ declared
      → take_chunk codecs faults declared chunk st ≡ (ok tt, moved chunk st)
  unfolding take_chunk write_chunk
  take_chunk-ok chunk st fits =
      let whole = sum st.written (length chunk) fits in
      let fits' : ltb declared (st.written + length chunk) ≡ false =
        le→ltb declared (st.written + length chunk) fits in
      simp (whole, fits', calm.whole st.position) refl
    where
      sum : (n k : ℕ) → n + k ≤ declared → (n + k) % 2 ^ 64 ≡ n + k
      sum n k h = omega arith

  module _ (lossless : IsLossless codecs) (algo : CompressionAlgo) (ending : Option BcmrError) where
    on_message-ok :
        (block : Bytes) (msg : Message) (later : Exec ChunkState (Unit {0})) (st : ChunkState)
        {r : Result (Unit {0}) × ChunkState}
        → SentAs codecs block msg
        → st.written + length block ≤ declared
        → later (moved block st) ≡ r
        → on_message codecs faults declared later msg st ≡ r
    unfolding on_message lift
    on_message-ok block msg later st (inl plain) fits k =
        rw plain (bind_ok _ _ (take_chunk-ok block st fits) k)
    on_message-ok block msg later st (inr (a, size, payload, is, unpacked, _)) fits k = rw is (
        bind_ok _ _ (ap (λ (o : Result Bytes). (o, st)) unpacked)
          (bind_ok _ _ (take_chunk-ok block st fits) k))

    chunk_loop-unread :
        (bs : List Bytes) (st : ChunkState)
        → Filled bs
        → st.written + length (concat bs) ≡ declared
        → st.unread ≡ block_messages codecs algo bs
        → (t : ChunkState) × (chunk_loop codecs faults declared ending
              (block_messages codecs algo bs)
              st
            ≡ (ok tt, t))
          × (t.unread ≡ done ∷ [])
          × (t.written ≡ declared)
          × (t.file ≡ written_blocks st.position bs st.file)
    unfolding chunk_loop block_messages concat written_blocks
    chunk_loop-unread [] st h size left =
        let full : st.written ≡ declared = omega (arith, size) in
        (st, simp ((==_iff st.written declared).1 full) refl, left, full, refl)
    chunk_loop-unread (b ∷ bs) st ((more, small), h) size left =
        let parts = length-append b (concat bs) in
        let short : (st.written == declared) ≡ false = differ (omega (arith, size, parts)) in
        let st' : ChunkState = record st { unread = block_messages codecs algo bs } in
        let (t, ran, unread, full, file) =
          chunk_loop-unread bs (moved b st') h (omega (arith, size, parts)) refl in
        (
          t,
          simp short (
              on_message-ok b _ _ st' (encode_block_cases codecs lossless algo b small)
                (omega (arith, size, parts)) ran),
          unread,
          full,
          file,
        )
      where
        differ : {n k : ℕ} → n < k → (n == k) ≡ false
        differ lt = ground arith

    -- If nothing fails and the client sends as many bytes as it declared, in blocks that are not
    -- empty, followed by Done, then it gets its Ok and the blocks are written one behind the other
    -- from the offset on, but the Done is not read.
    pub handle_put_chunked-unread :
        (sync : Bool) (offset : ℕ) (bs : List Bytes) (before : Bytes)
        → offset < 2 ^ 63
        → Filled bs
        → length (concat bs) ≡ declared
        → (t : ChunkState) × (handle_put_chunked codecs faults declared sync offset ending
              (block_messages codecs algo bs)
              before
            ≡ (ok (Message.ok none), t))
          × (t.unread ≡ done ∷ [])
          × (t.file ≡ written_blocks offset bs before)
    unfolding handle_put_chunked finish_chunked
    handle_put_chunked-unread sync offset bs before seek h size =
        let (t, ran, unread, full, file) =
          chunk_loop-unread bs
            (record {
              file = before;
              position = offset;
              written = 0;
              unread = block_messages codecs algo bs;
            })
            h (omega (arith, size)) refl in
        (
          t,
          simp (calm.opens, lt→ltb _ _ seek)
              (bind_ok _ _ ran
                (simp ((==_iff t.written declared).1 full, calm.flushes, quiet sync) refl)),
          unread,
          file,
        )
      where
        quiet : (b : Bool) → (b && false) ≡ false
        quiet true = refl
        quiet false = refl
