-- ===== src/Errors/Follows.antt =====
-- Code that does what other code does, wherever that succeeds.
use bcmr.Prelude.{◌≡◌, Bool, true, false, if◌then◌else◌}
use bcmr.Errors.{ok, Exec, ◌>>=◌, bind_ok, bind_inv}

-- Where `m` succeeds, `n` does the same.
unfoldable pub Follows : {S A : Type 0} → Exec S A → Exec S A → S → Type 0
Follows {S} {A} m n s = (a : A) (t : S) → m s ≡ (ok a, t) → n s ≡ (ok a, t)

module _ {S : Type 0} where
  pub Follows-refl : {A : Type 0} (m : Exec S A) (s : S) → Follows m m s
  unfolding Follows
  Follows-refl m s a t e = e

  pub Follows-bind :
      {A B : Type 0} (m n : Exec S A) (f g : A → Exec S B) (s : S)
      → Follows m n s
      → ((a : A) (t : S) → Follows (f a) (g a) t)
      → Follows (m >>= f) (n >>= g) s
  unfolding Follows
  Follows-bind m n f g s first later b u e =
      let (a, t, ran, rest) = bind_inv m f e in bind_ok n g (first a t ran) (later a t b u rest)

  pub Follows-if :
      {A : Type 0} (b : Bool) (m m' n n' : Exec S A) (s : S)
      → Follows m n s
      → Follows m' n' s
      → Follows (if b then m else m') (if b then n else n') s
  Follows-if true m m' n n' s h h' = h
  Follows-if false m m' n n' s h h' = h'
