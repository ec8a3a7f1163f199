-- ===== src/Bytes/Read.antt =====
-- Reading a file from a place on: what the sources use of `std::io::Read`.
use bcmr.Prelude.{ℕ, zero, suc, ◌+◌, ◌-◌, ◌≡◌, ◌≤◌, ◌<◌, refl, sym, ap, ◌∙◌, arith, [], ◌∷◌, ◌++◌}
use bcmr.Prelude.{length, take, drop, length-drop, Bool, false}
use bcmr.Prelude.{if◌then◌else◌, Bool-cases, ltb, ltb→lt, ltb→le, inl, inr}
use Prim.Native.Nat.{min, max}
use bcmr.Bytes.Word.{Bytes}
use bcmr.Bytes.Write.{drop-drop, drop_long}
use bcmr.Errors.{Result, ok, err, io, other}

-- A file that could be opened: its content, the places at which a read fails, and how much a read
-- at a place returns of what was asked for.
pub record ReadFile : Type 0 where
  pub content : Bytes
  pub fails : ℕ → Bool
  pub amount : ℕ → ℕ → ℕ

-- At least one byte, unless none is wanted or the file ends.
unfoldable pub read_size : ReadFile → (at want : ℕ) → ℕ
read_size file at want = min want (max 1 (file.amount at want))

unfoldable pub read : ReadFile → (at want : ℕ) → Result Bytes
read file at want =
    if file.fails at
    then err (io other)
    else ok (take (read_size file at want) (drop at file.content))

pub length-take : (n : ℕ) (xs : Bytes) → length (take n xs) ≡ min n (length xs)
unfolding take
length-take zero xs = omega arith
length-take (suc n) [] = omega arith
length-take (suc n) (x ∷ xs) = omega (arith, length-take n xs)

rest_of : (n : ℕ) (xs : Bytes) → take n xs ++ drop (length (take n xs)) xs ≡ xs
unfolding take drop
rest_of zero xs = refl
rest_of (suc n) [] = refl
rest_of (suc n) (x ∷ xs) = ap (λ (ys : Bytes). x ∷ ys) (rest_of n xs)

-- What a read that does not fail returns.
pub record Reads (file : ReadFile) (at want : ℕ) (part : Bytes) : Type 0 where
  pub result : read file at want ≡ ok part
  pub short : length part ≤ want
  pub rest : part ++ drop (at + length part) file.content ≡ drop at file.content
  pub progress : 1 ≤ want → at < length file.content → 1 ≤ length part
  pub size : length part ≤ length file.content - at

pub read-Reads :
    (file : ReadFile) (at want : ℕ)
    → file.fails at ≡ false
    → Reads file at want (take (read_size file at want) (drop at file.content))
unfolding read read_size
read-Reads file at want fine =
    let n = read_size file at want in
    let part = take n (drop at file.content) in
    let size = length-take n (drop at file.content) in
    let left = length-drop at file.content in
    record {
      result = rw fine refl;
      short = omega (arith, size);
      rest =
          ap (λ (ys : Bytes). part ++ ys) (sym (drop-drop (length part) at file.content))
          ∙ rest_of n (drop at file.content);
      progress = λ some_wanted before_end. omega (arith, size, left, some_wanted, before_end);
      size = omega (arith, size, left);
    }

-- A read that returns nothing has come to the end of the file.
pub Reads-end :
    (file : ReadFile) (at want : ℕ) → 1 ≤ want → Reads file at want [] → drop at file.content ≡ []
Reads-end file at want some_wanted r = elim (Bool-cases (ltb at (length file.content))) [
  | inl before ↦ absurd (omega (arith, r.progress some_wanted (ltb→lt _ _ before)))
  | inr behind ↦ drop_long at file.content (ltb→le _ _ behind)
]
