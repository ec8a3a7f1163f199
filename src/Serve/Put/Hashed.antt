-- ===== src/Serve/Put/Hashed.antt =====
-- What a put that succeeds has written, and the hash that it reports.
use bcmr.Prelude.{ℕ, suc, ◌%◌, ◌^◌, ◌≡◌, refl, ap, ◌∙◌, sym, arith, false}
use bcmr.Prelude.{Option, none, some, List, [], ◌∷◌}
use bcmr.Prelude.{ltb, ◌==◌, not, ◌&&◌, ◌||◌, Bool-cases, inl, inr, length, length-append}
use mathlib.Core.Path.{subst}
use bcmr.Bytes.Word.{Bytes}
use bcmr.Bytes.Digest.{Blake3}
use bcmr.Errors.{BcmrError, Result, ok, Exec, bind_inv}
use bcmr.Errors.Preserves.{PreservesOk, PreservesOk-same, PreservesOk-bind, PreservesOk-if}
use bcmr.Protocol.Message.{Message, data_plain, data_compressed, have_blocks, done}
use bcmr.Session.Store.{to_hex}
use bcmr.Compress.{Codecs}
use bcmr.Cas.{Cas}
use bcmr.Bytes.Write.{write_at_end}
use bcmr.Serve.Put.{reply_hash, DedupState, PutState, Faults, is_missing, update, lift}
use bcmr.Serve.Put.{write_all, hash_and_write, take_block, cas_read, next}
use bcmr.Serve.Put.{take_cached, take_cached_while, cas_write, store_missing, current, catch_up}
use bcmr.Serve.Put.{consume_block, flush_loop, flush_remaining_cas_blocks, put_loop}
use bcmr.Serve.Put.{announce, receive, finish, start, put_opened, handle_put}

module _ (blake3 : Blake3) (codecs : Codecs) (faults : Faults) (declared_size : ℕ) where
  -- The hasher has seen exactly what is in the file, and the next write goes to its end.
  record Agrees (st : PutState) : Type 0 where
    hashed : st.hashed ≡ some st.file
    at_end : st.position ≡ length st.file
    counted : st.written ≡ length st.file % 2 ^ 64

  hash_and_write-ok :
      (block : Bytes) (o : Option ℕ) (st t : PutState) (a : Unit {0})
      → Agrees st
      → write_all blake3 codecs faults declared_size block o
          (record st { hashed = update block st.hashed })
        ≡ (ok a, t)
      → Agrees t
  unfolding write_all update
  hash_and_write-ok block none st t a h e =
      subst Agrees (ap (λ (p : Result (Unit {0}) × PutState). p.1) e) (record {
        hashed = rw (h.hashed, h.at_end, write_at_end block st.file) refl;
        at_end =
            rw (h.at_end, write_at_end block st.file) (omega (arith, length-append st.file block));
        counted =
            rw (h.at_end, h.counted, write_at_end block st.file)
              (omega (arith, length-append st.file block));
      })
  hash_and_write-ok block (some n) st t a h e = cc

  take_block-Agrees :
      (block : Bytes) → PreservesOk Agrees (take_block blake3 codecs faults declared_size block)
  unfolding take_block lift hash_and_write
  take_block-Agrees block = record {
    at = λ s t a h e.
        (PreservesOk-bind Agrees _ _ (PreservesOk-same Agrees _ (λ st. refl))
            (λ _. record { at = λ st. hash_and_write-ok block (faults.cut st.position) st })).at
          s t a h e;
  }

  -- A step that does not touch the file.
  aside :
      {A : Type 0} (m : Exec PutState A)
      → ((s : PutState)
          → ((m s).1.file ≡ s.file)
            × ((m s).1.hashed ≡ s.hashed)
            × ((m s).1.position ≡ s.position)
            × ((m s).1.written ≡ s.written))
      → PreservesOk Agrees m
  aside {A} m same = record {
    at = λ s t a h e.
        let (file, hashed, position, written) = same s in
        subst Agrees (ap (λ (p : Result A × PutState). p.1) e) (record {
          hashed = rw (file, hashed) h.hashed;
          at_end = rw (file, position) h.at_end;
          counted = rw (file, written) h.counted;
        });
  }

  take_cached-Agrees :
      (hash : Bytes) → PreservesOk Agrees (take_cached blake3 codecs faults declared_size hash)
  unfolding take_cached cas_read next
  take_cached-Agrees hash =
      PreservesOk-bind Agrees _ _ (aside _ (λ s. (refl, refl, refl, refl))) (λ cached.
        PreservesOk-bind Agrees _ _ (take_block-Agrees cached)
          (λ _. aside _ (λ s. (refl, refl, refl, refl))))

  take_cached_while-Agrees :
      (d : DedupState) (cursor : ℕ) (hs : List Bytes)
      → PreservesOk Agrees (take_cached_while blake3 codecs faults declared_size d cursor hs)
  unfolding take_cached_while
  take_cached_while-Agrees d cursor [] = PreservesOk-same Agrees _ (λ s. refl)
  take_cached_while-Agrees d cursor (h ∷ hs) =
      PreservesOk-if Agrees (is_missing d cursor) _ _ (PreservesOk-same Agrees _ (λ s. refl)) (
        PreservesOk-bind Agrees _ _ (take_cached-Agrees h)
          (λ _. take_cached_while-Agrees d (suc cursor) hs))

  store_missing-Agrees :
      (block : Bytes) (o : Option DedupState)
      → PreservesOk Agrees (store_missing blake3 codecs faults declared_size block o)
  unfolding store_missing cas_write next
  store_missing-Agrees block none = PreservesOk-same Agrees _ (λ s. refl)
  store_missing-Agrees block (some d) =
      PreservesOk-if Agrees (ltb d.cursor (length d.hashes) && is_missing d d.cursor) _ _
        (PreservesOk-bind Agrees _ _ (aside _ (λ s. (refl, refl, refl, refl)))
          (λ _. aside _ (λ s. (refl, refl, refl, refl))))
        (PreservesOk-same Agrees _ (λ s. refl))

  catch_up-Agrees :
      (block : Bytes) (o : Option DedupState)
      → PreservesOk Agrees (catch_up blake3 codecs faults declared_size block o)
  unfolding catch_up current
  catch_up-Agrees block none = PreservesOk-same Agrees _ (λ s. refl)
  catch_up-Agrees block (some d) =
      PreservesOk-bind Agrees _ _ (take_cached_while-Agrees d d.cursor _) (λ _.
        PreservesOk-bind Agrees _ _ (PreservesOk-same Agrees _ (λ s. refl))
          (λ now. store_missing-Agrees block now))

  consume_block-Agrees :
      (block : Bytes) → PreservesOk Agrees (consume_block blake3 codecs faults declared_size block)
  unfolding consume_block current
  consume_block-Agrees block =
      PreservesOk-bind Agrees _ _ (PreservesOk-same Agrees _ (λ s. refl))
        (λ d. PreservesOk-bind Agrees _ _ (catch_up-Agrees block d) (λ _. take_block-Agrees block))

  flush_loop-Agrees :
      (d : DedupState) (cursor : ℕ) (hs : List Bytes)
      → PreservesOk Agrees (flush_loop blake3 codecs faults declared_size d cursor hs)
  unfolding flush_loop
  flush_loop-Agrees d cursor [] = PreservesOk-same Agrees _ (λ s. refl)
  flush_loop-Agrees d cursor (h ∷ hs) =
      PreservesOk-if Agrees (is_missing d cursor) _ _ (PreservesOk-same Agrees _ (λ s. refl)) (
        PreservesOk-bind Agrees _ _ (take_cached-Agrees h)
          (λ _. flush_loop-Agrees d (suc cursor) hs))

  flush-Agrees :
      (o : Option DedupState)
      → PreservesOk Agrees (flush_remaining_cas_blocks blake3 codecs faults declared_size o)
  unfolding flush_remaining_cas_blocks
  flush-Agrees none = PreservesOk-same Agrees _ (λ s. refl)
  flush-Agrees (some d) = flush_loop-Agrees d d.cursor _

  put_loop-Agrees :
      (ending : Option BcmrError) (msgs : List Message)
      → PreservesOk Agrees (put_loop blake3 codecs faults declared_size ending msgs)
  unfolding put_loop lift
  put_loop-Agrees none [] = PreservesOk-same Agrees _ (λ s. refl)
  put_loop-Agrees (some e) [] = PreservesOk-same Agrees _ (λ s. refl)
  put_loop-Agrees ending (data_plain payload ∷ msgs) =
      PreservesOk-bind Agrees _ _ (consume_block-Agrees payload) (λ _. put_loop-Agrees ending msgs)
  put_loop-Agrees ending (data_compressed algo size payload ∷ msgs) =
      PreservesOk-bind Agrees _ _ (PreservesOk-same Agrees _ (λ s. refl)) (λ block.
        PreservesOk-bind Agrees _ _ (consume_block-Agrees block) (λ _. put_loop-Agrees ending msgs))
  put_loop-Agrees ending (done ∷ msgs) = PreservesOk-same Agrees _ (λ s. refl)
  put_loop-Agrees ending (_ ∷ msgs) = PreservesOk-same Agrees _ (λ s. refl)

  receive-Agrees :
      (cap_bytes : Option ℕ) (ending : Option BcmrError) (msgs : List Message)
      → PreservesOk Agrees (receive blake3 codecs faults declared_size cap_bytes 0 ending msgs)
  unfolding receive announce
  receive-Agrees cap_bytes ending (have_blocks block_size hashes ∷ msgs) = record {
    at = λ s t a h e.
        (put_loop-Agrees ending msgs).at _ t a
          (record { hashed = h.hashed; at_end = h.at_end; counted = h.counted }) e;
  }
  receive-Agrees cap_bytes ending msgs = record { at = (put_loop-Agrees ending msgs).at }

  finish-ok :
      (s t : PutState) (m : Message)
      → Agrees s
      → finish blake3 codecs faults declared_size s ≡ (ok m, t)
      → (m ≡ Message.ok (some (to_hex (blake3.hash t.file))))
        × (length t.file % 2 ^ 64 ≡ declared_size)
  unfolding finish reply_hash
  finish-ok s t m h e = elim (Bool-cases (not (s.written == declared_size))) [
    | inl differs ↦ absurd (cc (rw differs at e))
    | inr same ↦ elim (Bool-cases (not faults.flushes)) [
      | inl failed ↦ absurd (cc (rw (same, failed) at e))
      | inr fine ↦
          let end : ◌≡◌ {A = Result Message × PutState}
              (ok (Message.ok (reply_hash blake3 codecs faults declared_size s.hashed)), s)
              (ok m, t) =
            rw (same, fine) at e in
          let reply : Message.ok (reply_hash blake3 codecs faults declared_size s.hashed) ≡ m =
            cc in
          subst
            (λ (u : PutState).
              (m ≡ Message.ok (some (to_hex (blake3.hash u.file))))
              × (length u.file % 2 ^ 64 ≡ declared_size))
            (ap (λ (p : Result Message × PutState). p.1) end)
            (
              sym reply
                  ∙ ap
                      (λ (o : Option Bytes).
                        Message.ok (reply_hash blake3 codecs faults declared_size o))
                      h.hashed,
              omega (arith, h.counted, declared s.written same),
            )
    ]
  ]
    where
      declared : (n : ℕ) → not (n == declared_size) ≡ false → n ≡ declared_size
      declared n e = ground arith

  -- A put from the beginning that succeeds reports the hash of what is now in the file, wherever the
  -- blocks came from, and the file has the declared length, modulo 2 ^ 64.
  pub handle_put-hash :
      (cap_bytes : Option ℕ) (ending : Option BcmrError) (msgs : List Message) (before : Bytes)
      (cas : Cas) (m : Message) (t : PutState)
      → handle_put blake3 codecs faults declared_size cap_bytes 0 ending msgs before cas ≡ (ok m, t)
      → (m ≡ Message.ok (some (to_hex (blake3.hash t.file))))
        × (length t.file % 2 ^ 64 ≡ declared_size)
  unfolding handle_put put_opened start current
  handle_put-hash cap_bytes ending msgs before cas m t e =
      elim (Bool-cases (ltb declared_size 0 || not (faults.opens && ltb 0 (2 ^ 63)))) [
        | inl refused ↦ absurd (cc (rw refused at e))
        | inr opened ↦
            let (a, s1, got1, e1) = bind_inv _ _ (rw opened at e) in
            let (d, s2, got2, e2) = bind_inv _ _ e1 in
            let (b, s3, got3, e3) = bind_inv _ _ e2 in
            let h0 : Agrees (start blake3 codecs faults declared_size 0 before cas) = record {
              hashed = refl;
              at_end = refl;
              counted = refl;
            } in
            let h1 = (receive-Agrees cap_bytes ending msgs).at _ s1 a h0 got1 in
            let h2 : Agrees s2 =
              subst Agrees (ap (λ (p : Result (Option DedupState) × PutState). p.1) got2) h1 in
            let h3 = (flush-Agrees d).at s2 s3 b h2 got3 in finish-ok s3 t m h3 e3
      ]
