-- ===== src/Errors/Runs.antt =====
-- Code that succeeds, with a property of the state behind it.
use bcmr.Prelude.{◌≡◌, refl, Bool, true, false, if◌then◌else◌}
use bcmr.Errors.{Result, ok, Exec, ◌>>=◌, bind_ok}

-- What the code returned is a success, and the property holds of the state behind it.
unfoldable pub Runs : {S A : Type 0} → Result A × S → (S → Type 0) → Type 0
Runs {S} {A} r Q = (a : A) × (t : S) × (r ≡ (ok a, t)) × Q t

module _ {S : Type 0} where
  pub Runs-ok : {A : Type 0} (a : A) (t : S) (Q : S → Type 0) → Q t → Runs (ok a, t) Q
  unfolding Runs
  Runs-ok a t Q q = (a, t, refl, q)

  pub Runs-bind :
      {A B : Type 0} (m : Exec S A) (f : A → Exec S B) (s : S) (P Q : S → Type 0)
      → Runs (m s) P
      → ((a : A) (t : S) → P t → Runs (f a t) Q)
      → Runs ((m >>= f) s) Q
  unfolding Runs
  Runs-bind m f s P Q (a, t, e, p) next =
      let (b, u, e', q) = next a t p in (b, u, bind_ok m f e e', q)

  pub Runs-if :
      {A : Type 0} (b : Bool) (m n : Exec S A) (s : S) (Q : S → Type 0)
      → (b ≡ true → Runs (m s) Q)
      → (b ≡ false → Runs (n s) Q)
      → Runs ((if b then m else n) s) Q
  Runs-if true m n s Q then_runs else_runs = then_runs refl
  Runs-if false m n s Q then_runs else_runs = else_runs refl

  pub Runs-imp :
      {A : Type 0} (r : Result A × S) (P Q : S → Type 0)
      → Runs r P
      → ((t : S) → P t → Q t)
      → Runs r Q
  unfolding Runs
  Runs-imp r P Q (a, t, e, p) imp = (a, t, e, imp t p)

  -- A first step whose result is known.
  pub Runs-step :
      {A B : Type 0} (m : Exec S A) (f : A → Exec S B) (s s' : S) (a : A) (Q : S → Type 0)
      → m s ≡ (ok a, s')
      → Runs (f a s') Q
      → Runs ((m >>= f) s) Q
  unfolding Runs
  Runs-step m f s s' a Q e (b, u, e', q) = (b, u, bind_ok m f e e', q)
