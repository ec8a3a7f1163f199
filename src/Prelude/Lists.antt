-- ===== src/Prelude/Lists.antt =====
-- Lists measured by native numbers, and predicates on lists by recursion.
use Prim.Native.Nat.{ℕ, zero, suc, ◌+◌, ◌-◌, ◌≤◌, ◌<◌}
use mathlib.Core.Path.{◌≡◌, refl}
use mathlib.Core.List.{List, [], ◌∷◌, ◌++◌}
use mathlib.Core.Option.{Option, none, some}
use mathlib.Core.Logic.{inl, inr}
use native.Mathlib.Omega.{arith}
use bcmr.Prelude.Tests.{Option-cases}

module _ {ℓ} {A : Type ℓ} where
  abbrev pub length : List A → ℕ
  length [] = 0
  length (x ∷ xs) = suc (length xs)

  pub length-append : (xs ys : List A) → length (xs ++ ys) ≡ length xs + length ys
  length-append [] ys = omega arith
  length-append (x ∷ xs) ys = omega (arith, length-append xs ys)

  abbrev pub All {κ} : (A → Type κ) → List A → Type κ
  All P [] = Unit {κ}
  All P (x ∷ xs) = P x × All P xs

  abbrev pub get_elem? : List A → ℕ → Option A
  get_elem? [] i = none
  get_elem? (x ∷ xs) zero = some x
  get_elem? (x ∷ xs) (suc i) = get_elem? xs i

  abbrev pub replicate : ℕ → A → List A
  replicate zero a = []
  replicate (suc n) a = a ∷ replicate n a

module _ {ℓ} {A : Type ℓ} where
  -- The first `n` elements and the others; `none` where there are fewer than `n`.
  unfoldable pub split_at? : ℕ → List A → Option (List A × List A)
  split_at? zero xs = some ([], xs)
  split_at? (suc n) [] = none
  split_at? (suc n) (x ∷ xs) = elim (split_at? n xs) [
    | none ↦ none
    | some (front, back) ↦ some (x ∷ front, back)
  ]

  pub split_at?-append :
      (xs ys : List A) (n : ℕ) → length xs ≡ n → split_at? n (xs ++ ys) ≡ some (xs, ys)
  unfolding split_at?
  split_at?-append [] ys zero h = refl
  split_at?-append [] ys (suc n) h = absurd (omega arith)
  split_at?-append (x ∷ xs) ys zero h = absurd (omega arith)
  split_at?-append (x ∷ xs) ys (suc n) h = rw (split_at?-append xs ys n (omega arith))

  pub split_at?-short : (n : ℕ) (xs : List A) → length xs < n → split_at? n xs ≡ none
  unfolding split_at?
  split_at?-short zero xs h = absurd (omega arith)
  split_at?-short (suc n) [] h = refl
  split_at?-short (suc n) (x ∷ xs) h = rw (split_at?-short n xs (omega arith))

  pub All-append {κ} : (P : A → Type κ) (xs ys : List A) → All P xs → All P ys → All P (xs ++ ys)
  All-append P [] ys p q = q
  All-append P (x ∷ xs) ys (px, p) q = (px, All-append P xs ys p q)

module _ {ℓ} {A : Type ℓ} where
  -- What a successful split returns.
  pub split_at?_lem :
      (n : ℕ) (xs : List A) {front back : List A}
      → split_at? n xs ≡ some (front, back)
      → (xs ≡ front ++ back) × (length front ≡ n)
  unfolding split_at?
  split_at?_lem zero xs h = ground arith
  split_at?_lem (suc n) [] h = cc
  split_at?_lem (suc n) (x ∷ xs) h = elim (Option-cases (split_at? n xs)) [
    | inl e ↦ ground arith
    | inr ((f, b), e) ↦ ground (arith, split_at?_lem n xs {front = f} {back = b} e)
  ]

module _ {ℓ} {A : Type ℓ} where
  unfoldable pub take : ℕ → List A → List A
  take zero xs = []
  take (suc n) [] = []
  take (suc n) (x ∷ xs) = x ∷ take n xs

  unfoldable pub drop : ℕ → List A → List A
  drop zero xs = xs
  drop (suc n) [] = []
  drop (suc n) (x ∷ xs) = drop n xs

  unfoldable pub concat : List (List A) → List A
  concat [] = []
  concat (xs ∷ rest) = xs ++ concat rest

  pub length-take_of_le : (n : ℕ) (xs : List A) → n ≤ length xs → length (take n xs) ≡ n
  unfolding take
  length-take_of_le zero xs h = refl
  length-take_of_le (suc n) [] h = absurd (omega arith)
  length-take_of_le (suc n) (x ∷ xs) h = omega (arith, length-take_of_le n xs)

  pub length-drop : (n : ℕ) (xs : List A) → length (drop n xs) ≡ length xs - n
  unfolding drop
  length-drop zero xs = omega arith
  length-drop (suc n) [] = omega arith
  length-drop (suc n) (x ∷ xs) = omega (arith, length-drop n xs)

  pub take-append-drop : (n : ℕ) (xs : List A) → take n xs ++ drop n xs ≡ xs
  unfolding take drop
  take-append-drop zero xs = refl
  take-append-drop (suc n) [] = refl
  take-append-drop (suc n) (x ∷ xs) = rw (take-append-drop n xs)

pub All-split {ℓ κ} :
    {A : Type ℓ} (P : A → Type κ) (xs ys : List A) → All P (xs ++ ys) → All P xs × All P ys
All-split P [] ys h = (tt, h)
All-split P (x ∷ xs) ys (hx, h) = let (a, b) = All-split P xs ys h in ((hx, a), b)

-- A tuple that is nested to the right, as those of `All` are.
infixr 2 ◌&◌
abbrev pub ◌&◌ {ℓ κ} : {A : Type ℓ} {B : Type κ} → A → B → A × B
a & b = (a, b)
