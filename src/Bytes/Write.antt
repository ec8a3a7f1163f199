-- ===== src/Bytes/Write.antt =====
-- The content of a file behind a write, a seek or a change of its length: what the sources use of
-- `std::fs::File`.
use bcmr.Prelude.{ℕ, zero, suc, ◌+◌, ◌-◌, ◌≡◌, ◌≤◌, refl, ap, arith, [], ◌∷◌, ◌++◌}
use bcmr.Prelude.{append-nil, append_assoc, length, length-append, take, drop, replicate}
use bcmr.Bytes.Word.{Bytes}

abbrev pub zeros : ℕ → Bytes
zeros n = replicate n 0

-- A write at an offset; a gap behind the end of the file is filled with zeros.
unfoldable pub write_at : ℕ → Bytes → Bytes → Bytes
write_at at chunk file =
    take at (file ++ zeros (at - length file)) ++ (chunk ++ drop (at + length chunk) file)

-- `set_len`: the file is cut off, or grows by zeros.
unfoldable pub set_len : ℕ → Bytes → Bytes
set_len n file = take n (file ++ zeros (n - length file))

pub take-length : (xs : Bytes) → take (length xs) xs ≡ xs
unfolding take
take-length [] = refl
take-length (x ∷ xs) = ap (λ (ys : Bytes). x ∷ ys) (take-length xs)

pub drop_long : (n : ℕ) (xs : Bytes) → length xs ≤ n → drop n xs ≡ []
unfolding drop
drop_long zero [] h = refl
drop_long zero (x ∷ xs) h = absurd (omega arith)
drop_long (suc n) [] h = refl
drop_long (suc n) (x ∷ xs) h = drop_long n xs (omega arith)

pub take-append : (xs ys : Bytes) → take (length xs) (xs ++ ys) ≡ xs
unfolding take
take-append [] ys = refl
take-append (x ∷ xs) ys = ap (λ (zs : Bytes). x ∷ zs) (take-append xs ys)

pub drop-append : (xs ys : Bytes) (n : ℕ) → drop (length xs + n) (xs ++ ys) ≡ drop n ys
unfolding drop
drop-append [] ys n = let e : 0 + n ≡ n = omega arith in rw e refl
drop-append (x ∷ xs) ys n =
    let e : suc (length xs) + n ≡ suc (length xs + n) = omega arith in rw e (drop-append xs ys n)

pub drop-append_at : (xs ys : Bytes) → drop (length xs) (xs ++ ys) ≡ ys
unfolding drop
drop-append_at [] ys = refl
drop-append_at (x ∷ xs) ys = drop-append_at xs ys

pub length-zeros : (n : ℕ) → length (zeros n) ≡ n
length-zeros zero = refl
length-zeros (suc n) = omega (arith, length-zeros n)

pub zeros-add : (n k : ℕ) → zeros n ++ zeros k ≡ zeros (n + k)
zeros-add zero k = let e : 0 + k ≡ k = omega arith in rw e refl
zeros-add (suc n) k =
    let e : suc n + k ≡ suc (n + k) = omega arith in
    rw e (ap (λ (zs : Bytes). 0 ∷ zs) (zeros-add n k))

pub drop-zeros : (n k : ℕ) → drop n (zeros k) ≡ zeros (k - n)
unfolding drop
drop-zeros zero k = let e : k - 0 ≡ k = omega arith in rw e refl
drop-zeros (suc n) zero = let e : 0 - suc n ≡ 0 = omega arith in rw e refl
drop-zeros (suc n) (suc k) = let e : suc k - suc n ≡ k - n = omega arith in rw e (drop-zeros n k)

-- A write in the middle of a file, and one at its end.
pub write_at-append :
    (front chunk rest : Bytes)
    → write_at (length front) chunk (front ++ rest) ≡ front ++ (chunk ++ drop (length chunk) rest)
unfolding write_at
write_at-append front chunk rest =
    rw
      (
        append_assoc,
        take-append front (rest ++ zeros (length front - length (front ++ rest))),
        drop-append front rest (length chunk),
      )
      refl

no_gap : (n : ℕ) → n ≡ 0 → zeros n ≡ []
no_gap zero h = refl
no_gap (suc n) h = absurd (omega arith)

pub write_at_end : (chunk file : Bytes) → write_at (length file) chunk file ≡ file ++ chunk
unfolding write_at
write_at_end chunk file =
    rw
      (
        no_gap (length file - length file) (omega arith),
        append-nil,
        take-length file,
        drop_long (length file + length chunk) file (omega arith),
        append-nil,
      )
      refl

pub drop-drop : (n k : ℕ) (xs : Bytes) → drop n (drop k xs) ≡ drop (k + n) xs
unfolding drop
drop-drop n zero xs = let e : 0 + n ≡ n = omega arith in rw e refl
drop-drop zero (suc k) [] = let e : suc k + 0 ≡ suc k = omega arith in rw e refl
drop-drop (suc n) (suc k) [] = let e : suc k + suc n ≡ suc (k + suc n) = omega arith in rw e refl
drop-drop n (suc k) (x ∷ xs) =
    let e : suc k + n ≡ suc (k + n) = omega arith in rw e (drop-drop n k xs)

pub take-append_add : (xs ys : Bytes) (n : ℕ) → take (length xs + n) (xs ++ ys) ≡ xs ++ take n ys
unfolding take
take-append_add [] ys n = let e : 0 + n ≡ n = omega arith in rw e refl
take-append_add (x ∷ xs) ys n =
    let e : suc (length xs) + n ≡ suc (length xs + n) = omega arith in
    rw e (ap (λ (zs : Bytes). x ∷ zs) (take-append_add xs ys n))

pub take-zeros : (n k : ℕ) → n ≤ k → take n (zeros k) ≡ zeros n
unfolding take
take-zeros zero k h = refl
take-zeros (suc n) zero h = absurd (omega arith)
take-zeros (suc n) (suc k) h = ap (λ (zs : Bytes). 0 ∷ zs) (take-zeros n k (omega arith))

-- A file that ends in zeros, as far as an offset in them or behind them.
front_and_hole :
    (front : Bytes) (tail hole : ℕ)
    → take
        (length front + hole)
        ((front ++ zeros tail) ++ zeros (length front + hole - length (front ++ zeros tail)))
      ≡ front ++ zeros hole
front_and_hole front tail hole =
    let gap = length front + hole - length (front ++ zeros tail) in
    let size = length-append front (zeros tail) in
    rw
      (
        append_assoc front (zeros tail) (zeros gap),
        zeros-add tail gap,
        take-append_add front (zeros (tail + gap)) hole,
        take-zeros hole (tail + gap) (omega (arith, size, length-zeros tail)),
      )
      refl

-- A write in those zeros or behind them, and the change of the length to such a place.
pub write_at-zeros :
    (front chunk : Bytes) (tail hole : ℕ)
    → write_at (length front + hole) chunk (front ++ zeros tail)
      ≡ ((front ++ zeros hole) ++ chunk) ++ zeros (tail - (hole + length chunk))
unfolding write_at
write_at-zeros front chunk tail hole =
    let e : length front + hole + length chunk ≡ length front + (hole + length chunk) =
      omega arith in
    rw
      (
        front_and_hole front tail hole,
        e,
        drop-append front (zeros tail) (hole + length chunk),
        drop-zeros (hole + length chunk) tail,
        append_assoc (front ++ zeros hole) chunk (zeros (tail - (hole + length chunk))),
      )
      refl

pub set_len-zeros :
    (front : Bytes) (tail hole : ℕ)
    → set_len (length front + hole) (front ++ zeros tail) ≡ front ++ zeros hole
unfolding set_len
set_len-zeros = front_and_hole

-- A file whose beginning is replaced.
abbrev pub overlay : Bytes → Bytes → Bytes
overlay content file = content ++ drop (length content) file

pub write_at-overlay :
    (content chunk file : Bytes)
    → write_at (length content) chunk (overlay content file) ≡ overlay (content ++ chunk) file
write_at-overlay content chunk file =
    rw
      (
        write_at-append content chunk (drop (length content) file),
        drop-drop (length chunk) (length content) file,
        length-append content chunk,
        append_assoc,
      )
      refl

pub take_add : (n k : ℕ) (xs : Bytes) → take n xs ++ take k (drop n xs) ≡ take (n + k) xs
unfolding take drop
take_add zero k xs = let e : 0 + k ≡ k = omega arith in rw e refl
take_add (suc n) zero [] = let e : suc n + 0 ≡ suc n = omega arith in rw e refl
take_add (suc n) (suc k) [] = let e : suc n + suc k ≡ suc (n + suc k) = omega arith in rw e refl
take_add (suc n) k (x ∷ xs) =
    let e : suc n + k ≡ suc (n + k) = omega arith in
    rw e (ap (λ (ys : Bytes). x ∷ ys) (take_add n k xs))
