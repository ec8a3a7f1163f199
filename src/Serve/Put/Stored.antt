-- ===== src/Serve/Put/Stored.antt =====
-- The store of blocks stays in order, whatever the client sends.
use bcmr.Prelude.{◌≡◌, arith, ◌^◌, ℕ, zero, suc, refl, Option, none, some}
use bcmr.Prelude.{List, [], ◌∷◌, ltb, not, ◌&&◌, ◌||◌, Bool-cases, inl, inr, length}
use bcmr.Bytes.Word.{Bytes}
use bcmr.Bytes.Digest.{Blake3}
use bcmr.Errors.{BcmrError}
use bcmr.Errors.Preserves.{Preserves, Preserves-same, Preserves-bind, Preserves-if}
use bcmr.Protocol.Message.{Message, data_plain, data_compressed, have_blocks, done}
use bcmr.Compress.{Codecs}
use bcmr.Cas.{Cas}
use bcmr.Cas.Addressed.{IsAddressed, read-IsAddressed, write-IsAddressed, evict_to_cap-All}
use bcmr.Serve.Put.{DedupState, PutState, Faults, is_missing, lift}
use bcmr.Serve.Put.{write_all, hash_and_write, take_block, cas_read, next}
use bcmr.Serve.Put.{take_cached, take_cached_while, cas_write, store_missing, current, catch_up}
use bcmr.Serve.Put.{consume_block, flush_loop, flush_remaining_cas_blocks, put_loop, cap_evicted}
use bcmr.Serve.Put.{announce, receive, finish, start, put_opened, handle_put}

module _ (blake3 : Blake3) (codecs : Codecs) (faults : Faults) (declared_size : ℕ) where
  abbrev Good : PutState → Type 0
  Good st = IsAddressed blake3 st.cas

  write_all-Preserves :
      (block : Bytes) (o : Option ℕ)
      → Preserves Good (write_all blake3 codecs faults declared_size block o)
  unfolding write_all
  write_all-Preserves block none = record { at = λ s h. h }
  write_all-Preserves block (some n) = record { at = λ s h. h }

  take_block-Preserves :
      (block : Bytes) → Preserves Good (take_block blake3 codecs faults declared_size block)
  unfolding take_block lift hash_and_write
  take_block-Preserves block = record {
    at = λ st.
        (Preserves-bind Good _ _ (Preserves-same Good _ (λ s. refl)) (λ _. record {
          at = λ s h. (write_all-Preserves block (faults.cut s.position)).at _ h;
        })).at
          st;
  }

  take_cached-Preserves :
      (hash : Bytes) → Preserves Good (take_cached blake3 codecs faults declared_size hash)
  unfolding take_cached cas_read next
  take_cached-Preserves hash =
      Preserves-bind Good _ _
        (record { at = λ s h. read-IsAddressed blake3 faults.now hash s.cas h })
        (λ cached.
          Preserves-bind Good _ _ (take_block-Preserves cached) (λ _. record { at = λ s h. h }))

  take_cached_while-Preserves :
      (d : DedupState) (cursor : ℕ) (hs : List Bytes)
      → Preserves Good (take_cached_while blake3 codecs faults declared_size d cursor hs)
  unfolding take_cached_while
  take_cached_while-Preserves d cursor [] = Preserves-same Good _ (λ s. refl)
  take_cached_while-Preserves d cursor (h ∷ hs) =
      Preserves-if Good (is_missing d cursor) _ _ (Preserves-same Good _ (λ s. refl)) (
        Preserves-bind Good _ _ (take_cached-Preserves h)
          (λ _. take_cached_while-Preserves d (suc cursor) hs))

  store_missing-Preserves :
      (block : Bytes) (o : Option DedupState)
      → Preserves Good (store_missing blake3 codecs faults declared_size block o)
  unfolding store_missing cas_write next
  store_missing-Preserves block none = Preserves-same Good _ (λ s. refl)
  store_missing-Preserves block (some d) =
      Preserves-if Good (ltb d.cursor (length d.hashes) && is_missing d d.cursor) _ _
        (Preserves-bind Good _ _
          (record { at = λ s h. write-IsAddressed blake3 faults.now _ block s.cas h })
          (λ _. record { at = λ s h. h }))
        (Preserves-same Good _ (λ s. refl))

  catch_up-Preserves :
      (block : Bytes) (o : Option DedupState)
      → Preserves Good (catch_up blake3 codecs faults declared_size block o)
  unfolding catch_up current
  catch_up-Preserves block none = Preserves-same Good _ (λ s. refl)
  catch_up-Preserves block (some d) =
      Preserves-bind Good _ _ (take_cached_while-Preserves d d.cursor _) (λ _.
        Preserves-bind Good _ _ (Preserves-same Good _ (λ s. refl))
          (λ now. store_missing-Preserves block now))

  consume_block-Preserves :
      (block : Bytes) → Preserves Good (consume_block blake3 codecs faults declared_size block)
  unfolding consume_block current
  consume_block-Preserves block =
      Preserves-bind Good _ _ (Preserves-same Good _ (λ s. refl)) (λ d.
        Preserves-bind Good _ _ (catch_up-Preserves block d) (λ _. take_block-Preserves block))

  flush_loop-Preserves :
      (d : DedupState) (cursor : ℕ) (hs : List Bytes)
      → Preserves Good (flush_loop blake3 codecs faults declared_size d cursor hs)
  unfolding flush_loop
  flush_loop-Preserves d cursor [] = Preserves-same Good _ (λ s. refl)
  flush_loop-Preserves d cursor (h ∷ hs) =
      Preserves-if Good (is_missing d cursor) _ _ (Preserves-same Good _ (λ s. refl)) (
        Preserves-bind Good _ _ (take_cached-Preserves h)
          (λ _. flush_loop-Preserves d (suc cursor) hs))

  flush-Preserves :
      (o : Option DedupState)
      → Preserves Good (flush_remaining_cas_blocks blake3 codecs faults declared_size o)
  unfolding flush_remaining_cas_blocks
  flush-Preserves none = Preserves-same Good _ (λ s. refl)
  flush-Preserves (some d) = flush_loop-Preserves d d.cursor _

  put_loop-Preserves :
      (ending : Option BcmrError) (msgs : List Message)
      → Preserves Good (put_loop blake3 codecs faults declared_size ending msgs)
  unfolding put_loop lift
  put_loop-Preserves none [] = Preserves-same Good _ (λ s. refl)
  put_loop-Preserves (some e) [] = Preserves-same Good _ (λ s. refl)
  put_loop-Preserves ending (data_plain payload ∷ msgs) =
      Preserves-bind Good _ _ (consume_block-Preserves payload)
        (λ _. put_loop-Preserves ending msgs)
  put_loop-Preserves ending (data_compressed algo size payload ∷ msgs) =
      Preserves-bind Good _ _ (Preserves-same Good _ (λ s. refl)) (λ block.
        Preserves-bind Good _ _ (consume_block-Preserves block)
          (λ _. put_loop-Preserves ending msgs))
  put_loop-Preserves ending (done ∷ msgs) = Preserves-same Good _ (λ s. refl)
  put_loop-Preserves ending (_ ∷ msgs) = Preserves-same Good _ (λ s. refl)

  announce-Good :
      (cap_bytes : Option ℕ) (hashes : List Bytes) (st : PutState)
      → Good st
      → Good (announce blake3 codecs faults declared_size cap_bytes hashes st)
  unfolding announce cap_evicted
  announce-Good none hashes st h = h
  announce-Good (some limit) hashes st h =
      evict_to_cap-All (λ b. b.hash ≡ blake3.hash b.content) faults.stuck limit st.cas h

  receive-Preserves :
      (cap_bytes : Option ℕ) (offset : ℕ) (ending : Option BcmrError) (msgs : List Message)
      → Preserves Good (receive blake3 codecs faults declared_size cap_bytes offset ending msgs)
  unfolding receive
  receive-Preserves cap_bytes zero ending (have_blocks block_size hashes ∷ msgs) = record {
    at = λ s h. (put_loop-Preserves ending msgs).at _ (announce-Good cap_bytes hashes s h);
  }
  receive-Preserves cap_bytes offset ending msgs = record {
    at = (put_loop-Preserves ending msgs).at;
  }

  finish-Preserves : Preserves Good (finish blake3 codecs faults declared_size)
  unfolding finish
  finish-Preserves = Preserves-same Good _ (λ s. ground arith)

  start-Good :
      (offset : ℕ) (before : Bytes) (cas : Cas)
      → IsAddressed blake3 cas
      → Good (start blake3 codecs faults declared_size offset before cas)
  unfolding start
  start-Good zero before cas h = h
  start-Good (suc n) before cas h = h

  put_opened-Preserves :
      (cap_bytes : Option ℕ) (offset : ℕ) (ending : Option BcmrError) (msgs : List Message)
      → Preserves Good (put_opened blake3 codecs faults declared_size cap_bytes offset ending msgs)
  unfolding put_opened current
  put_opened-Preserves cap_bytes offset ending msgs =
      Preserves-bind Good _ _ (receive-Preserves cap_bytes offset ending msgs) (λ _.
        Preserves-bind Good _ _ (Preserves-same Good _ (λ s. refl))
          (λ d. Preserves-bind Good _ _ (flush-Preserves d) (λ _. finish-Preserves)))

  -- Whatever the client sends, and whatever fails, a put leaves in the store only blocks that have
  -- the hash that their file is named by, if it found only such blocks.
  pub handle_put-IsAddressed :
      (cap_bytes : Option ℕ) (offset : ℕ) (ending : Option BcmrError) (msgs : List Message)
      (before : Bytes) (cas : Cas)
      → IsAddressed blake3 cas
      → IsAddressed blake3
          (handle_put blake3 codecs faults declared_size cap_bytes offset ending msgs before
            cas).1.cas
  unfolding handle_put
  handle_put-IsAddressed cap_bytes offset ending msgs before cas h =
      elim (Bool-cases (ltb declared_size offset || not (faults.opens && ltb offset (2 ^ 63)))) [
        | inl refused ↦ rw refused (start-Good offset before cas h)
        | inr opened ↦ rw opened (
            (put_opened-Preserves cap_bytes offset ending msgs).at _
              (start-Good offset before cas h))
      ]
