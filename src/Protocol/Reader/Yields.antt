-- ===== src/Protocol/Reader/Yields.antt =====
-- Which values the readers return from bytes, by one rule for each way to build a reader.
use bcmr.Prelude.{ℕ, zero, suc, ◌^◌, ◌<◌, ◌≡◌, refl, sym, ◌∙◌, arith, Bool, true, false, Bool-cases}
use bcmr.Prelude.{if◌then◌else◌, inl, inr, none, some, List, [], ◌∷◌}
use bcmr.Prelude.{length, All, All-split, split_at?_lem}
use mathlib.Core.Path.{subst}
use bcmr.Bytes.Word.{Bytes, IsByte, IsU32, IsU64, IsArray, from_le_bytes, from_le_bytes-lt}
use bcmr.Bytes.Int.{IsI64, i64_of_bits-IsI64}
use bcmr.Bytes.Utf8.{is_utf8}
use bcmr.Protocol.Message.{IsText, IsBlob, OptText, OptU64, IsEntry}
use bcmr.Protocol.Reader.{Reader, ◌>>=◌, pure, fail, take_bytes, read_count, read_u8_or_zero}
use bcmr.Protocol.Reader.{read_u8, read_u32_le, read_u64_le, read_i64_le, read_string, read_bytes}
use bcmr.Protocol.Reader.{read_fixed, read_opt_string, read_opt_u64, read_list_entry}
use bcmr.Protocol.Reader.Laws.{bind_inv}

-- From bytes, `read` returns only values of `P`, and leaves bytes.
pub record Yields {A : Type 0} (P : A → Type 0) (read : Reader A) : Type 0 where
  pub at :
      (bs : Bytes) (a : A) (rest : Bytes)
      → All IsByte bs
      → read bs ≡ some (a, rest)
      → P a × All IsByte rest

module _ {A : Type 0} {P : A → Type 0} where
  pub Yields-pure : (a : A) → P a → Yields P (pure a)
  Yields-pure a p = record { at = λ bs b rest h e. (subst P (cc) p, subst (All IsByte) (cc) h) }

  pub Yields-fail : Yields P (fail {A = A})
  Yields-fail = record { at = λ bs b rest h e. cc }

  pub Yields-if :
      (b : Bool) (m n : Reader A) → Yields P m → Yields P n → Yields P (if b then m else n)
  Yields-if true m n p q = p
  Yields-if false m n p q = q

module _ {A B : Type 0} {P : A → Type 0} {Q : B → Type 0} where
  pub Yields-bind :
      (m : Reader A) (f : A → Reader B)
      → Yields P m
      → ((a : A) → P a → Yields Q (f a))
      → Yields Q (m >>= f)
  Yields-bind m f p q = record {
    at = λ bs b rest h e.
        let (a, mid, got, e') = bind_inv m f bs e in
        let (pa, hmid) = p.at bs a mid h got in (q a pa).at mid b rest hmid e';
  }

pub take_bytes-Yields : (n : ℕ) → Yields (IsArray n) (take_bytes n)
unfolding take_bytes
take_bytes-Yields n = record {
  at = λ bs a rest h e.
      let (cut, size) = split_at?_lem n bs e in
      let (front, back) = All-split IsByte a rest (subst (All IsByte) cut h) in
      (record { size = size; bytes_in_range = front }, back);
}

pub word_bound : {n : ℕ} (bs : Bytes) → IsArray n bs → from_le_bytes bs < 256 ^ n
word_bound bs h =
    subst (λ k. from_le_bytes bs < 256 ^ k) h.size (from_le_bytes-lt bs h.bytes_in_range)

pub read_u8-Yields : Yields IsByte read_u8
unfolding read_u8
read_u8-Yields = record { at = at }
  where
    at :
        (bs : Bytes) (a : ℕ) (rest : Bytes)
        → All IsByte bs
        → read_u8 bs ≡ some (a, rest)
        → IsByte a × All IsByte rest
    at [] a rest h e = cc
    at (b ∷ bs) a rest (hb, h) e = (subst IsByte (cc) hb, subst (All IsByte) (cc) h)

pub read_u8_or_zero-Yields : Yields IsByte read_u8_or_zero
unfolding read_u8_or_zero
read_u8_or_zero-Yields = record { at = at }
  where
    at :
        (bs : Bytes) (a : ℕ) (rest : Bytes)
        → All IsByte bs
        → read_u8_or_zero bs ≡ some (a, rest)
        → IsByte a × All IsByte rest
    at [] a rest h e = (
      subst IsByte (let k : 0 ≡ a = cc in k) (omega arith),
      subst (All IsByte) (let k : [] ≡ rest = cc in k) tt,
    )
    at (b ∷ bs) a rest (hb, h) e = (subst IsByte (cc) hb, subst (All IsByte) (cc) h)

pub read_u32_le-Yields : Yields IsU32 read_u32_le
unfolding read_u32_le
read_u32_le-Yields =
    Yields-bind _ _ (take_bytes-Yields 4) λ bs h. Yields-pure _ (word_bound {n = 4} bs h)

pub read_u64_le-Yields : Yields IsU64 read_u64_le
unfolding read_u64_le
read_u64_le-Yields =
    Yields-bind _ _ (take_bytes-Yields 8) λ bs h. Yields-pure _ (word_bound {n = 8} bs h)

pub read_i64_le-Yields : Yields IsI64 read_i64_le
unfolding read_i64_le
read_i64_le-Yields =
    Yields-bind _ _ (take_bytes-Yields 8)
      λ bs h. Yields-pure _ (i64_of_bits-IsI64 (from_le_bytes bs) (word_bound {n = 8} bs h))

checked-Yields :
    (n : ℕ) (bs : Bytes)
    → IsU32 n
    → IsArray n bs
    → Yields IsText (if is_utf8 bs then pure bs else fail)
checked-Yields n bs hn h = elim (Bool-cases (is_utf8 bs)) [
  | inl valid ↦ rw valid (
      Yields-pure bs (record {
        string = record { bytes_in_range = h.bytes_in_range; utf8 = valid };
        short = subst IsU32 (sym h.size) hn;
      }))
  | inr invalid ↦ rw invalid Yields-fail
]

pub read_string-Yields : Yields IsText read_string
unfolding read_string
read_string-Yields =
    Yields-bind _ _ read_u32_le-Yields
      λ n hn. Yields-bind _ _ (take_bytes-Yields n) λ bs h. checked-Yields n bs hn h

pub read_bytes-Yields : Yields IsBlob read_bytes
unfolding read_bytes
read_bytes-Yields = Yields-bind _ _ read_u32_le-Yields λ n hn. record {
  at = λ bs a rest h e.
      let (array, back) = (take_bytes-Yields n).at bs a rest h e in
      (
        record { bytes_in_range = array.bytes_in_range; short = subst IsU32 (sym array.size) hn },
        back,
      );
}

pub read_fixed-Yields : (n : ℕ) → Yields (IsArray n) (read_fixed n)
unfolding read_fixed
read_fixed-Yields n = take_bytes-Yields n

pub read_opt_string-Yields : Yields OptText read_opt_string
unfolding read_opt_string
read_opt_string-Yields = Yields-bind _ _ read_u8-Yields λ b hb.
    Yields-if _ _ _ (Yields-bind _ _ read_string-Yields λ s h. Yields-pure (some s) h)
      (Yields-pure none tt)

pub read_opt_u64-Yields : Yields OptU64 read_opt_u64
unfolding read_opt_u64
read_opt_u64-Yields = Yields-bind _ _ read_u8-Yields λ b hb.
    Yields-if _ _ _ (Yields-bind _ _ read_u64_le-Yields λ v h. Yields-pure (some v) h)
      (Yields-pure none tt)

pub read_list_entry-Yields : Yields IsEntry read_list_entry
unfolding read_list_entry
read_list_entry-Yields = Yields-bind _ _ read_string-Yields λ path hp.
    Yields-bind _ _ read_u64_le-Yields λ size hs. Yields-bind _ _ read_i64_le-Yields λ mtime hm.
      Yields-bind _ _ read_u8-Yields
        λ is_dir hd. Yields-pure _ (record { path = hp; size = hs; mtime = hm })

-- As many values as were counted.
pub record IsCounted {A : Type 0} (P : A → Type 0) (n : ℕ) (xs : List A) : Type 0 where
  pub size : length xs ≡ n
  pub each : All P xs

module _ {A : Type 0} {P : A → Type 0} (read : Reader A) (p : Yields P read) where
  -- The loop, as a `do` block.
  loop_step :
      (n : ℕ) (bs : Bytes)
      → read_count (suc n) read bs ≡ (do a ← read; more ← read_count n read; pure (a ∷ more)) bs
  unfolding read_count ◌>>=◌
  loop_step n bs = ground arith

  pub read_count-Yields : (n : ℕ) → Yields (IsCounted P n) (read_count n read)
  read_count-Yields zero = unfold read_count in Yields-pure [] (record { size = refl; each = tt })
  read_count-Yields (suc n) = record {
    at = λ bs a rest h e.
        (Yields-bind {Q = IsCounted P (suc n)} read
            (λ a. (do more ← read_count n read; pure (a ∷ more))) p
            (λ x hx. Yields-bind _ _ (read_count-Yields n) (λ more hm.
              Yields-pure _ (record { size = omega (arith, hm.size); each = (hx, hm.each) })))).at
          bs a rest h (sym (loop_step n bs) ∙ e);
  }
