-- ===== src/Errors.antt =====
-- `BcmrError` of src/core/error.rs and `io::ErrorKind`, as far as the modelled code tells them
-- apart; the text of a message is left out. A result that may fail, and code that changes a state
-- and may fail: the state comes back beside the error too.
pub mod Preserves
pub mod Runs
pub mod Ends
pub mod Follows
use bcmr.Prelude.{◌≡◌, ◌∙◌, ap, refl}

pub data IoKind : Type 0 where
  unexpected_eof invalid_data other : IoKind

pub data BcmrError : Type 0 where
  io : IoKind → BcmrError
  invalid_input : BcmrError
  reflink : BcmrError
  verification_error : BcmrError
  crypto_failure : BcmrError

pub data Result {ℓ} (A : Type ℓ) : Type ℓ where
  ok : A → Result A
  err : BcmrError → Result A

abbrev pub Exec : Type 0 → Type 0 → Type 0
Exec S A = S → Result A × S

abbrev pub pure : {S A : Type 0} → A → Exec S A
pure a s = (ok a, s)

abbrev pub raise : {S A : Type 0} → BcmrError → Exec S A
raise e s = (err e, s)

abbrev pub continue : {S A B : Type 0} → Result A → (A → Exec S B) → Exec S B
continue (ok a) f s = f a s
continue (err e) f s = (err e, s)

infixl 5 ◌>>=◌ ◌>>◌
unfoldable pub ◌>>=◌ : {S A B : Type 0} → Exec S A → (A → Exec S B) → Exec S B
◌>>=◌ m f s = let (r, s') = m s in continue r f s'

abbrev pub ◌>>◌ : {S B : Type 0} → Exec S (Unit {0}) → Exec S B → Exec S B
m >> k = m >>= λ _. k

module _ {S A B : Type 0} (m : Exec S A) (f : A → Exec S B) {s : S} where
  pub bind_ok :
      {a : A} {s' : S} {r : Result B × S} → m s ≡ (ok a, s') → f a s' ≡ r → (m >>= f) s ≡ r
  unfolding ◌>>=◌
  bind_ok e k = ap (λ (p : Result A × S). continue p.0 f p.1) e ∙ k

  pub bind_err : {e : BcmrError} {s' : S} → m s ≡ (err e, s') → (m >>= f) s ≡ (err e, s')
  unfolding ◌>>=◌
  bind_err e = ap (λ (p : Result A × S). continue p.0 f p.1) e

  -- A block that succeeds has succeeded in its first step.
  pub bind_inv :
      {b : B} {t : S}
      → (m >>= f) s ≡ (ok b, t)
      → (a : A) × (s' : S) × (m s ≡ (ok a, s')) × (f a s' ≡ (ok b, t))
  unfolding ◌>>=◌
  bind_inv e = go (m s) refl e
    where
      go :
          (p : Result A × S) {b : B} {t : S}
          → m s ≡ p
          → continue p.0 f p.1 ≡ (ok b, t)
          → (a : A) × (s' : S) × (m s ≡ (ok a, s')) × (f a s' ≡ (ok b, t))
      go (ok a, s') q k = (a, s', q, k)
      go (err x, s') q k = cc
