-- ===== src/Client/Dedup/Blocks.antt =====
-- The blocks of a file that can be read.
use bcmr.Prelude.{ℕ, zero, suc, ◌+◌, ◌-◌, ◌≡◌, ◌≤◌, ◌<◌, refl, sym, ap, ◌∙◌, arith, true, false}
use bcmr.Prelude.{◌==◌, ltb, Bool-cases, inl, inr}
use bcmr.Prelude.{List, [], ◌∷◌, ◌++◌, length, take, drop, length-drop, concat}
use bcmr.Prelude.{take-append-drop, All, ==_iff, ltb→lt}
use mathlib.Core.Path.{subst}
use bcmr.Bytes.Word.{Bytes}
use bcmr.Bytes.Read.{ReadFile, read_size, Reads, read-Reads, Reads-end, length-take}
use bcmr.Bytes.Write.{drop-drop, drop_long, take-append_add}
use bcmr.Bytes.Digest.{Blake3}
use bcmr.Errors.{Result, ok, Exec, bind_ok}
use bcmr.Serve.Put.{lift}
use bcmr.Client.Dedup.{fill_round, fill, hash_round, hash_loop}
use bcmr.Compress.{CompressionAlgo, Codecs}
use bcmr.Serve.Put.Kept.{digests}

-- A text cut into pieces of `n` bytes, of which the last one may be shorter.
unfoldable pub cut : (rounds n : ℕ) → Bytes → List Bytes
cut zero n xs = []
cut (suc k) n [] = []
cut (suc k) n (x ∷ xs) = take n (x ∷ xs) ∷ cut k n (drop n (x ∷ xs))

unfoldable pub file_blocks : (n : ℕ) → Bytes → List Bytes
file_blocks n xs = cut (length xs + 1) n xs

pub concat-cut : (k n : ℕ) (xs : Bytes) → 1 ≤ n → length xs ≤ k → concat (cut k n xs) ≡ xs
unfolding cut concat
concat-cut zero n [] some_byte h = refl
concat-cut zero n (x ∷ xs) some_byte h = absurd (omega (arith, h))
concat-cut (suc k) n [] some_byte h = refl
concat-cut (suc k) n (x ∷ xs) some_byte h =
    ap (λ (ys : Bytes). take n (x ∷ xs) ++ ys)
      (concat-cut k n (drop n (x ∷ xs)) some_byte
        (omega (arith, h, some_byte, length-drop n (x ∷ xs))))
    ∙ take-append-drop n (x ∷ xs)

pub cut-short :
    (k n size : ℕ) (xs : Bytes) → n < size → All (λ (b : Bytes). length b < size) (cut k n xs)
unfolding cut
cut-short zero n size xs h = tt
cut-short (suc k) n size [] h = tt
cut-short (suc k) n size (x ∷ xs) h =
    (omega (arith, h, length-take n (x ∷ xs)), cut-short k n size (drop n (x ∷ xs)) h)

fill_round-append :
    {S : Type 0} (part rest : Bytes) (later : Exec S Bytes) (st : S)
    → (1 ≤ length part → later st ≡ (ok rest, st))
    → (part ≡ [] → rest ≡ [])
    → fill_round part later st ≡ (ok (part ++ rest), st)
unfolding fill_round
fill_round-append [] rest later st ran none_left = rw (none_left refl) refl
fill_round-append (b ∷ bs) rest later st ran none_left = bind_ok _ _ (ran (omega arith)) refl

take-none : (n : ℕ) (xs : Bytes) → n ≡ 0 → take n xs ≡ []
unfolding take
take-none zero xs h = refl
take-none (suc n) xs h = absurd (omega (arith, h))

take-nil : (n : ℕ) → take {A = ℕ} n [] ≡ []
unfolding take
take-nil zero = refl
take-nil (suc n) = refl

pub drop-take : (n : ℕ) (xs : Bytes) → drop (length (take n xs)) xs ≡ drop n xs
unfolding take drop
drop-take zero xs = refl
drop-take (suc n) [] = refl
drop-take (suc n) (x ∷ xs) = drop-take n xs

pub cut-nil : (k n : ℕ) → cut k n [] ≡ []
unfolding cut
cut-nil zero n = refl
cut-nil (suc k) n = refl

append-empty : (xs ys : Bytes) → xs ++ ys ≡ [] → ys ≡ []
append-empty [] ys e = e
append-empty (x ∷ xs) ys e = cc

module _ (file : ReadFile) (fine : (at : ℕ) → file.fails at ≡ false) where
  pub fill-take :
      {S : Type 0} (n at want : ℕ) (st : S)
      → want ≤ n
      → fill n file at want st ≡ (ok (take want (drop at file.content)), st)
  unfolding fill lift
  fill-take zero at want st h = rw (take-none want (drop at file.content) (omega (arith, h))) refl
  fill-take (suc n) at want st h = elim (Bool-cases (want == 0)) [
    | inl full ↦ rw (full, take-none want (drop at file.content) ((==_iff want 0).0 full)) refl
    | inr more ↦
        let r = read-Reads file at want (fine at) in
        let part = take (read_size file at want) (drop at file.content) in
        let left = want - length part in
        let positive : 1 ≤ want = ground (arith, more) in
        rw more (
          bind_ok _ _ (ap (λ (x : Result Bytes). (x, st)) r.result) (
            fill_round-append part (take left (drop (at + length part) file.content)) _ st
              (λ some_more. fill-take n (at + length part) left st (omega (arith, h, some_more)))
              (λ ended.
                let none_left =
                  Reads-end file at want positive (subst (Reads file at want) ended r) in
                let behind =
                  append-empty part (drop (at + length part) file.content) (r.rest ∙ none_left) in
                rw behind (take-nil left))
            ∙ ap (λ (b : Bytes). (ok b, st))
                (sym (take-append_add part (drop (at + length part) file.content) left)
                  ∙ ap (λ (k : ℕ). take k (part ++ drop (at + length part) file.content))
                      (omega (arith, r.short))
                  ∙ ap (λ (b : Bytes). take want b) r.rest)))
  ]

  module _ (blake3 : Blake3) (codecs : Codecs) (block_size : ℕ) (algo : CompressionAlgo)
      (progress : 1 ≤ block_size) where
    hash_round-some :
        {S : Type 0} (p : Bytes) (hashes : List Bytes) (later : Exec S (List Bytes)) (st : S)
        → 1 ≤ length p
        → (ltb (length p) block_size ≡ true → hashes ≡ [])
        → later st ≡ (ok hashes, st)
        → hash_round blake3 codecs block_size algo p later st ≡ (ok (blake3.hash p ∷ hashes), st)
    unfolding hash_round
    hash_round-some [] hashes later st some_byte last ran = absurd (omega (arith, some_byte))
    hash_round-some (b ∷ bs) hashes later st some_byte last ran =
        elim (Bool-cases (ltb (length (b ∷ bs)) block_size)) [
          | inl short ↦ rw (short, last short) refl
          | inr full ↦ rw full (bind_ok _ _ ran refl)
        ]

    hash_round-cut :
        {S : Type 0} (k : ℕ) (xs : Bytes) (later : Exec S (List Bytes)) (st : S)
        → (1 ≤ length xs
            → later st ≡ (ok (digests blake3 (cut k block_size (drop block_size xs))), st))
        → hash_round blake3 codecs block_size algo (take block_size xs) later st
          ≡ (ok (digests blake3 (cut (suc k) block_size xs)), st)
    unfolding cut digests hash_round
    hash_round-cut k [] later st ran = rw (take-nil block_size) refl
    hash_round-cut k (x ∷ xs) later st ran =
        let size = length-take block_size (x ∷ xs) in
        hash_round-some (take block_size (x ∷ xs)) _ later st (omega (arith, size, progress))
          (λ short.
            rw
              (
                drop_long block_size (x ∷ xs) (omega (arith, size, ltb→lt _ _ short)),
                cut-nil k block_size,
              )
              refl)
          (ran (omega arith))

    pub hash_loop-cut :
        {S : Type 0} (k at : ℕ) (st : S)
        → length file.content < k + at
        → hash_loop blake3 codecs block_size algo k file at st
          ≡ (ok (digests blake3 (cut k block_size (drop at file.content))), st)
    unfolding hash_loop cut digests
    hash_loop-cut zero at st h = refl
    hash_loop-cut (suc k) at st h =
        bind_ok _ _ (fill-take block_size at block_size st (omega arith)) (
          hash_round-cut k (drop at file.content) _ st (λ some_left.
            let part = take block_size (drop at file.content) in
            hash_loop-cut k (at + length part) st
              (omega (arith, h, some_left, progress, length-take block_size (drop at file.content)))
            ∙ ap (λ (xs : Bytes). (ok (digests blake3 (cut k block_size xs)), st))
                (sym (drop-drop (length part) at file.content)
                  ∙ drop-take block_size (drop at file.content))))
