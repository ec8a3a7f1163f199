-- ===== src/Serve/Put/Kept.antt =====
-- What the server does with a block that it has, and with one that it does not have.
use bcmr.Prelude.{
  ℕ, zero, suc, ◌+◌, ◌%◌, ◌^◌, ◌≡◌, ◌≤◌, ◌<◌, refl, sym, ap, ◌∙◌, arith, true, false,
}
use bcmr.Prelude.{Bool, ltb, some, List, [], ◌∷◌, ◌++◌}
use bcmr.Prelude.{length, length-append, drop, concat, append_assoc, append-nil, All}
use mathlib.Core.Path.{subst}
use bcmr.Bytes.Word.{Bytes}
use bcmr.Bytes.Digest.{Blake3}
use bcmr.Bytes.Write.{write_at_end}
use bcmr.Errors.{Result, ◌>>=◌}
use bcmr.Errors.Runs.{Runs, Runs-ok, Runs-bind, Runs-step}
use bcmr.Protocol.Message.{missing_blocks}
use bcmr.Compress.{Codecs}
use bcmr.Cas.{Cas, has, write, touch}
use bcmr.Cas.Addressed.{IsAddressed, touch-IsAddressed, write-IsAddressed, read-hash}
use bcmr.Cas.Grows.{Holds, has-touch, has-write, touch-Holds, write-Holds, read-Holds}
use bcmr.Serve.Put.{DedupState, PutState, Faults, is_missing, update, lift, enforce_write_bound}
use bcmr.Serve.Put.{write_all, hash_and_write, take_block, cas_read, next, take_cached}
use bcmr.Serve.Put.{take_cached_while}
use bcmr.Serve.Put.{flush_loop, advance_cursor}
use bcmr.Serve.Put.Delivered.{IsCalm}

-- The hashes of the blocks of a file.
unfoldable pub digests : Blake3 → List Bytes → List Bytes
digests blake3 [] = []
digests blake3 (b ∷ bs) = blake3.hash b ∷ digests blake3 bs

-- Among the known contents no two have the same hash.
abbrev pub Apart : Blake3 → (Bytes → Type 0) → Type 0
Apart blake3 Known = (x y : Bytes) → Known x → Known y → blake3.hash x ≡ blake3.hash y → x ≡ y

drop-next : (n : ℕ) (xs ys : List Bytes) (x : Bytes) → drop n xs ≡ x ∷ ys → drop (suc n) xs ≡ ys
unfolding drop
drop-next zero [] ys x e = cc
drop-next zero (z ∷ xs) ys x e = cc
drop-next (suc n) [] ys x e = cc
drop-next (suc n) (z ∷ xs) ys x e = drop-next n xs ys x e

module _ (blake3 : Blake3) (codecs : Codecs) (faults : Faults) (declared_size : ℕ)
    (calm : IsCalm faults) (room : declared_size < 2 ^ 63) (Known : Bytes → Type 0)
    (apart : Apart blake3 Known) (hashes : List Bytes) (bits : Bytes) where
  abbrev pub at_cursor : ℕ → DedupState
  at_cursor cursor = record { hashes = hashes; bits = bits; cursor = cursor }

  -- What the bits say that the store has, it has.
  unfoldable pub Serves : Cas → ℕ → List Bytes → Type 0
  Serves cas i [] = Unit {0}
  Serves cas i (b ∷ bs) =
      (is_missing (at_cursor 0) i ≡ false → has (blake3.hash b) cas ≡ true) × Serves cas (suc i) bs

  Serves-imp :
      (cas after : Cas) (i : ℕ) (bs : List Bytes)
      → ((hash : Bytes) → has hash cas ≡ true → has hash after ≡ true)
      → Serves cas i bs
      → Serves after i bs
  unfolding Serves
  Serves-imp cas after i [] grows s = tt
  Serves-imp cas after i (b ∷ bs) grows (h, s) =
      (λ kept. grows (blake3.hash b) (h kept), Serves-imp cas after (suc i) bs grows s)

  -- The store, with the blocks that are left from a cursor on.
  pub record Stored (cursor : ℕ) (left : List Bytes) (cas : Cas) : Type 0 where
    pub addressed : IsAddressed blake3 cas
    pub known : Holds Known cas
    pub left_known : All Known left
    pub serves : Serves cas cursor left
    pub rest : drop cursor hashes ≡ digests blake3 left

  -- `content` was received, and the blocks from the `from`-th one on are left.
  pub record At (cursor from : ℕ) (content : Bytes) (left : List Bytes) (st : PutState)
      : Type 0 where
    pub dedup : st.dedup ≡ some (at_cursor cursor)
    pub file : st.file ≡ content
    pub position : st.position ≡ length content
    pub hashed : st.hashed ≡ some content
    pub written : st.written ≡ length content
    pub stored : Stored from left st.cas
    pub sent : st.sent ≡ missing_blocks bits ∷ []

  pub take_block-At :
      (cursor from : ℕ) (content block : Bytes) (left : List Bytes) (st : PutState)
      → length content + length block ≤ declared_size
      → At cursor from content left st
      → Runs
          (take_block blake3 codecs faults declared_size block st)
          (At cursor from (content ++ block) left)
  unfolding take_block lift enforce_write_bound hash_and_write write_all update Runs ◌>>=◌
  take_block-At cursor from content block left st fits h =
      let within : ltb declared_size ((length content + length block) % 2 ^ 64) ≡ false =
        ground arith in
      let sum : (length content + length block) % 2 ^ 64 ≡ length content + length block =
        omega (arith, fits, room) in
      rw (h.written, within, h.position, calm.whole (length content))
        (Runs-ok tt _ (At cursor from (content ++ block) left) (record {
          dedup = h.dedup;
          file = rw h.file (write_at_end block content);
          position = sym (length-append content block);
          hashed = rw h.hashed refl;
          written = sum ∙ sym (length-append content block);
          stored = h.stored;
          sent = h.sent;
        }))

  -- The store behind the read of the first block that is left.
  touch-Stored :
      (cursor now : ℕ) (hash b : Bytes) (left : List Bytes) (cas : Cas)
      → Stored cursor (b ∷ left) cas
      → Stored (suc cursor) left (touch now hash cas)
  unfolding Serves digests
  touch-Stored cursor now hash b left cas s = record {
    addressed = touch-IsAddressed blake3 now hash cas s.addressed;
    known = touch-Holds Known now hash cas s.known;
    left_known = s.left_known.1;
    serves =
        Serves-imp cas (touch now hash cas) (suc cursor) left
          (λ h there. has-touch now h hash cas ∙ there) s.serves.1;
    rest = drop-next cursor hashes (digests blake3 left) (blake3.hash b) s.rest;
  }

  pub write-Stored :
      (cursor now : ℕ) (fails : Bool) (b : Bytes) (left : List Bytes) (cas : Cas)
      → Stored cursor (b ∷ left) cas
      → Stored (suc cursor) left (write now fails (blake3.hash b) b cas).1
  unfolding Serves digests
  write-Stored cursor now fails b left cas s = record {
    addressed = write-IsAddressed blake3 now fails b cas s.addressed;
    known = write-Holds Known now fails (blake3.hash b) b cas s.left_known.0 s.known;
    left_known = s.left_known.1;
    serves =
        Serves-imp cas _ (suc cursor) left
          (λ h there. has-write now fails (blake3.hash b) b h cas there) s.serves.1;
    rest = drop-next cursor hashes (digests blake3 left) (blake3.hash b) s.rest;
  }

  pub next-At :
      (cursor from : ℕ) (content : Bytes) (left : List Bytes) (st : PutState)
      → At cursor from content left st
      → Runs (next blake3 codecs faults declared_size st) (At (suc cursor) from content left)
  unfolding next advance_cursor
  next-At cursor from content left st h = Runs-ok tt _ (At (suc cursor) from content left) (record {
    dedup =
        ap advance_cursor h.dedup
        ∙ ap (λ (c : ℕ). some (at_cursor c)) (let e : cursor + 1 ≡ suc cursor = omega arith in e);
    file = h.file;
    position = h.position;
    hashed = h.hashed;
    written = h.written;
    stored = h.stored;
    sent = h.sent;
  })

  -- A block that the store has is read, and is the block of the file.
  take_cached-At :
      (cursor : ℕ) (content b : Bytes) (left : List Bytes) (st : PutState)
      → is_missing (at_cursor 0) cursor ≡ false
      → length content + length b ≤ declared_size
      → At cursor cursor content (b ∷ left) st
      → Runs
          (take_cached blake3 codecs faults declared_size (blake3.hash b) st)
          (At (suc cursor) (suc cursor) (content ++ b) left)
  unfolding take_cached cas_read Serves
  take_cached-At cursor content b left st there fits h =
      let s = h.stored in
      let (found, got, known) =
        read-Holds Known faults.now (blake3.hash b) st.cas s.known (s.serves.0 there) in
      let same : found ≡ b = sym (
        apart b found s.left_known.0 known (
          read-hash blake3 faults.now (blake3.hash b) st.cas found s.addressed
            (ap (λ (p : Result Bytes × Cas). p.0) got))) in
      let after = touch faults.now (blake3.hash b) st.cas in
      Runs-step _ _ st (record st { cas = after }) found
        (At (suc cursor) (suc cursor) (content ++ b) left)
        (ap (λ (p : Result Bytes × Cas). (p.0, record st { cas = p.1 })) got)
        (Runs-bind _ _ _ (At cursor (suc cursor) (content ++ b) left) _
          (subst
            (λ (x : Bytes).
              Runs (take_block blake3 codecs faults declared_size x (record st { cas = after }))
                (At cursor (suc cursor) (content ++ b) left))
            (sym same)
            (take_block-At cursor (suc cursor) content b left _ fits (record {
              dedup = h.dedup;
              file = h.file;
              position = h.position;
              hashed = h.hashed;
              written = h.written;
              stored = touch-Stored cursor faults.now (blake3.hash b) b left st.cas s;
              sent = h.sent;
            })))
          (λ _ t ht. next-At cursor (suc cursor) (content ++ b) left t ht))

  -- These blocks the store has.
  unfoldable pub AllKept : ℕ → List Bytes → Type 0
  AllKept i [] = Unit {0}
  AllKept i (b ∷ bs) = (is_missing (at_cursor 0) i ≡ false) × AllKept (suc i) bs

  pub take_cached_while-At :
      (pending : List Bytes) (from i k : ℕ) (content b : Bytes) (left : List Bytes) (st : PutState)
      → k ≡ i + length pending
      → AllKept i pending
      → is_missing (at_cursor 0) k ≡ true
      → length content + length (concat pending) ≤ declared_size
      → At i i content (pending ++ b ∷ left) st
      → Runs
          (take_cached_while blake3 codecs faults declared_size
            (at_cursor from)
            i
            (digests blake3 (pending ++ b ∷ left))
            st)
          (At k k (content ++ concat pending) (b ∷ left))
  unfolding AllKept take_cached_while digests concat is_missing
  take_cached_while-At [] from i k content b left st e kept missing fits h =
      let here : i ≡ k = omega (arith, e) in
      rw (here, missing, append-nil content)
        (Runs-ok tt st (At k k content (b ∷ left)) (rw here at h))
  take_cached_while-At (p ∷ pending) from i k content b left st e (there, kept) missing fits h =
      let size = length-append p (concat pending) in
      rw there (
        rw⁻¹ (append_assoc content p (concat pending)) (
          Runs-bind _ _ st (At (suc i) (suc i) (content ++ p) (pending ++ b ∷ left)) _
            (take_cached-At i content p (pending ++ b ∷ left) st there (omega (arith, size, fits))
              h)
            (λ _ t ht.
              take_cached_while-At pending from (suc i) k (content ++ p) b left t (omega (arith, e))
                kept missing (omega (arith, size, fits, length-append content p)) ht)))

  pub flush_loop-At :
      (pending : List Bytes) (from i k : ℕ) (content : Bytes) (st : PutState)
      → k ≡ i + length pending
      → AllKept i pending
      → length content + length (concat pending) ≤ declared_size
      → At i i content pending st
      → Runs
          (flush_loop blake3 codecs faults declared_size
            (at_cursor from)
            i
            (digests blake3 pending)
            st)
          (At k k (content ++ concat pending) [])
  unfolding AllKept flush_loop digests concat is_missing
  flush_loop-At [] from i k content st e kept fits h =
      let here : i ≡ k = omega (arith, e) in
      rw (append-nil content) (Runs-ok tt st (At k k content []) (rw here at h))
  flush_loop-At (p ∷ pending) from i k content st e (there, kept) fits h =
      let size = length-append p (concat pending) in
      rw there (
        rw⁻¹ (append_assoc content p (concat pending)) (
          Runs-bind _ _ st (At (suc i) (suc i) (content ++ p) pending) _
            (take_cached-At i content p pending st there (omega (arith, size, fits)) h)
            (λ _ t ht.
              flush_loop-At pending from (suc i) k (content ++ p) t (omega (arith, e)) kept
                (omega (arith, size, fits, length-append content p)) ht)))
