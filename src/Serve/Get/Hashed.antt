-- ===== src/Serve/Get/Hashed.antt =====
-- What `handle_hash` hashes.
use bcmr.Prelude.{ℕ, zero, suc, ◌+◌, ◌-◌, ◌^◌, ◌≡◌, ◌≤◌, ◌<◌, refl, sym, ap, ◌∙◌, arith, false}
use bcmr.Prelude.{Option, none, some, [], ◌∷◌, ◌++◌, append_assoc, append-nil, lt→ltb}
use bcmr.Prelude.{length, take, drop}
use Prim.Native.Nat.{min}
use bcmr.Bytes.Word.{Bytes}
use bcmr.Bytes.Read.{ReadFile, Reads, read-Reads, Reads-end}
use bcmr.Bytes.Digest.{Blake3}
use bcmr.Errors.{Result, ok}
use bcmr.Protocol.Message.{hash_response}
use bcmr.Session.Store.{to_hex}
use bcmr.Serve.Get.{opened_at, to_read, left_of, hash_round, hash_read, hash_loop, digest_reply}
use bcmr.Serve.Get.{hash_opened, handle_hash}

-- As far as the limit.
unfoldable pub limited : Option ℕ → Bytes → Bytes
limited none xs = xs
limited (some n) xs = take n xs

limited_nil : (limit : Option ℕ) → limited limit [] ≡ []
unfolding limited take
limited_nil none = refl
limited_nil (some zero) = refl
limited_nil (some (suc n)) = refl

pub take_part :
    (n : ℕ) (part rest : Bytes)
    → length part ≤ n
    → take n (part ++ rest) ≡ part ++ take (n - length part) rest
unfolding take
take_part n [] rest h = let e : n - 0 ≡ n = omega arith in rw e refl
take_part zero (x ∷ xs) rest h = absurd (omega arith)
take_part (suc n) (x ∷ xs) rest h =
    let e : suc n - suc (length xs) ≡ n - length xs = omega arith in
    rw e (ap (λ (ys : Bytes). x ∷ ys) (take_part n xs rest (omega arith)))

-- A part that is not longer than what may be read.
Allows : Option ℕ → ℕ → Type 0
Allows none n = Unit
Allows (some r) n = n ≤ r

limited_part :
    (blake3 : Blake3) (chunk_size : ℕ) (limit : Option ℕ) (part rest : Bytes)
    → Allows limit (length part)
    → limited limit (part ++ rest)
      ≡ part ++ limited (left_of blake3 chunk_size limit (length part)) rest
unfolding limited left_of Allows
limited_part blake3 chunk_size none part rest h = refl
limited_part blake3 chunk_size (some n) part rest h = take_part n part rest h

unbounded : (n : ℕ) → Allows none n
unfolding Allows
unbounded n = tt

bounded : (r n : ℕ) → n ≤ r → Allows (some r) n
unfolding Allows
bounded r n h = h

module _ (blake3 : Blake3) (chunk_size : ℕ) (progress : 1 ≤ chunk_size) (file : ReadFile)
    (fine : (at : ℕ) → file.fails at ≡ false) where
  -- One round, for what the next ones do.
  round-limited :
      (limit : Option ℕ) (at want : ℕ) (text part : Bytes) (later : Bytes → Bytes → Result Bytes)
      → 1 ≤ want
      → Reads file at want part
      → Allows limit (length part)
      → (1 ≤ length part
          → later part (text ++ part)
            ≡ ok (
                (text ++ part)
                ++ limited
                    (left_of blake3 chunk_size limit (length part))
                    (drop (at + length part) file.content)))
      → hash_round blake3 chunk_size (later part) text part
        ≡ ok (text ++ limited limit (drop at file.content))
  unfolding hash_round
  round-limited limit at want text [] later some_wanted r fits next =
      let ended : drop at file.content ≡ [] = Reads-end file at want some_wanted r in
      rw (ended, limited_nil limit, append-nil text) refl
  round-limited limit at want text (b ∷ bs) later some_wanted r fits next =
      next (omega arith)
      ∙ ap (λ (xs : Bytes). ok xs)
          (append_assoc text (b ∷ bs) _
            ∙ ap (λ (xs : Bytes). text ++ xs)
                (sym (
                    limited_part blake3 chunk_size limit (b ∷ bs)
                      (drop (at + length (b ∷ bs)) file.content) fits)
                  ∙ ap (λ (xs : Bytes). limited limit xs) r.rest))

  abbrev rest_loop : (fuel at : ℕ) (limit : Option ℕ) → Bytes → Bytes → Result Bytes
  rest_loop fuel at limit part now =
      hash_loop blake3 chunk_size fuel file (at + length part)
        (left_of blake3 chunk_size limit (length part)) now

  read-limited :
      (fuel : ℕ) (at want : ℕ) (limit : Option ℕ) (text part : Bytes)
      → ((at' : ℕ) (limit' : Option ℕ) (text' : Bytes)
          → length file.content - at' < fuel
          → hash_loop blake3 chunk_size fuel file at' limit' text'
            ≡ ok (text' ++ limited limit' (drop at' file.content)))
      → length file.content - at < suc fuel
      → 1 ≤ want
      → Reads file at want part
      → Allows limit (length part)
      → hash_round blake3 chunk_size (rest_loop fuel at limit part) text part
        ≡ ok (text ++ limited limit (drop at file.content))
  read-limited fuel at want limit text part later enough wanted r fits =
      round-limited limit at want text part (rest_loop fuel at limit) wanted r fits (λ filled.
        later (at + length part) (left_of blake3 chunk_size limit (length part)) (text ++ part)
          (omega (arith, enough, filled, r.size)))

  hash_loop-limited :
      (fuel : ℕ) (at : ℕ) (limit : Option ℕ) (text : Bytes)
      → length file.content - at < fuel
      → hash_loop blake3 chunk_size fuel file at limit text
        ≡ ok (text ++ limited limit (drop at file.content))
  unfolding hash_loop to_read hash_read limited take
  hash_loop-limited zero at limit text enough = absurd (omega arith)
  hash_loop-limited (suc fuel) at (some zero) text enough =
      ap (λ (xs : Bytes). ok xs) (sym (append-nil text))
  hash_loop-limited (suc fuel) at none text enough =
      let r = read-Reads file at chunk_size (fine at) in
      rw r.result (
        read-limited fuel at chunk_size none text _ (hash_loop-limited fuel) enough progress r
          (unbounded _))
  hash_loop-limited (suc fuel) at (some (suc n)) text enough =
      let want = min (suc n) chunk_size in
      let r = read-Reads file at want (fine at) in
      rw r.result (
        read-limited fuel at want (some (suc n)) text _ (hash_loop-limited fuel) enough
          (omega (arith, progress)) r (bounded (suc n) _ (omega (arith, r.short))))

  -- If no read fails, and a chunk has at least one byte, the server reports the digest of the part
  -- of the file from the offset on, up to the limit if there is one, in however small portions the
  -- file is read.
  pub handle_hash-hash :
      (offset : ℕ) (limit : Option ℕ)
      → offset < 2 ^ 63
      → handle_hash blake3 chunk_size offset limit (some file)
        ≡ ok (hash_response (to_hex (blake3.hash (limited limit (drop offset file.content)))))
  unfolding handle_hash opened_at hash_opened digest_reply
  handle_hash-hash offset limit room =
      rw
        (
          lt→ltb offset (2 ^ 63) room,
          hash_loop-limited (suc (length file.content)) offset limit [] (omega arith),
        )
        refl
