-- ===== src/Errors/Preserves.antt =====
-- Properties of the state that code keeps: whatever it returns, or where it succeeds.
use bcmr.Prelude.{◌≡◌, ap, Bool, true, false, if◌then◌else◌}
use mathlib.Core.Path.{subst}
use bcmr.Errors.{Result, ok, err, Exec, continue, ◌>>=◌, bind_inv}

-- The property holds behind the code, errors included.
pub record Preserves {S A : Type 0} (P : S → Type 0) (m : Exec S A) : Type 0 where
  pub at : (s : S) → P s → P (m s).1

-- The property holds behind the code where the code succeeds.
pub record PreservesOk {S A : Type 0} (P : S → Type 0) (m : Exec S A) : Type 0 where
  pub at : (s t : S) (a : A) → P s → m s ≡ (ok a, t) → P t

module _ {S : Type 0} (P : S → Type 0) where
  pub Preserves-same : {A : Type 0} (m : Exec S A) → ((s : S) → (m s).1 ≡ s) → Preserves P m
  Preserves-same m same = record { at = λ s h. rw (same s) h }

  pub Preserves-bind :
      {A B : Type 0} (m : Exec S A) (f : A → Exec S B)
      → Preserves P m
      → ((a : A) → Preserves P (f a))
      → Preserves P (m >>= f)
  unfolding ◌>>=◌
  Preserves-bind {A} {B} m f km kf = record { at = λ s h. go (m s) (km.at s h) }
    where
      go : (p : Result A × S) → P p.1 → P (continue p.0 f p.1).1
      go (ok a, s) h = (kf a).at s h
      go (err e, s) h = h

  pub Preserves-if :
      {A : Type 0} (b : Bool) (m n : Exec S A)
      → Preserves P m
      → Preserves P n
      → Preserves P (if b then m else n)
  Preserves-if true m n km kn = km
  Preserves-if false m n km kn = kn

  pub PreservesOk-same : {A : Type 0} (m : Exec S A) → ((s : S) → (m s).1 ≡ s) → PreservesOk P m
  PreservesOk-same {A} m same = record {
    at = λ s t a h e.
        let there : (m s).1 ≡ t = ap (λ (p : Result A × S). p.1) e in subst P (cc (same s)) h;
  }

  pub PreservesOk-bind :
      {A B : Type 0} (m : Exec S A) (f : A → Exec S B)
      → PreservesOk P m
      → ((a : A) → PreservesOk P (f a))
      → PreservesOk P (m >>= f)
  PreservesOk-bind m f km kf = record {
    at = λ s t b h e.
        let (a, s', got, last) = bind_inv m f e in (kf a).at s' t b (km.at s s' a h got) last;
  }

  pub PreservesOk-if :
      {A : Type 0} (b : Bool) (m n : Exec S A)
      → PreservesOk P m
      → PreservesOk P n
      → PreservesOk P (if b then m else n)
  PreservesOk-if true m n km kn = km
  PreservesOk-if false m n km kn = kn
