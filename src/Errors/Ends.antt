-- ===== src/Errors/Ends.antt =====
-- How code ends, with a property of the state for each of its ways to end.
use bcmr.Prelude.{◌≡◌, refl, Bool, true, false, if◌then◌else◌}
use bcmr.Errors.{Result, ok, err, Exec, ◌>>=◌, continue}

-- Behind a success `Q` holds, and behind an error `E`.
unfoldable pub Ends : {S A : Type 0} → (A → S → Type 0) → (S → Type 0) → Result A × S → Type 0
Ends Q E (ok a, t) = Q a t
Ends Q E (err e, t) = E t

module _ {S : Type 0} where
  continue-Ends :
      {A B : Type 0} (f : A → Exec S B) (P : A → S → Type 0) (Q : B → S → Type 0) (E : S → Type 0)
      (p : Result A × S)
      → Ends P E p
      → ((a : A) (t : S) → P a t → Ends Q E (f a t))
      → Ends Q E (continue p.0 f p.1)
  unfolding Ends
  continue-Ends f P Q E (ok a, t) h next = next a t h
  continue-Ends f P Q E (err e, t) h next = h

  pub Ends-bind :
      {A B : Type 0} (m : Exec S A) (f : A → Exec S B) (P : A → S → Type 0) (Q : B → S → Type 0)
      (E : S → Type 0) (s : S)
      → Ends P E (m s)
      → ((a : A) (t : S) → P a t → Ends Q E (f a t))
      → Ends Q E ((m >>= f) s)
  unfolding ◌>>=◌
  Ends-bind m f P Q E s h next = continue-Ends f P Q E (m s) h next

  pub Ends-if :
      {A : Type 0} (b : Bool) (r q : Result A × S) (Q : A → S → Type 0) (E : S → Type 0)
      → (b ≡ true → Ends Q E r)
      → (b ≡ false → Ends Q E q)
      → Ends Q E (if b then r else q)
  Ends-if true r q Q E h h' = h refl
  Ends-if false r q Q E h h' = h' refl

  -- The same for code, at a state.
  pub Ends-choose :
      {A : Type 0} (b : Bool) (m n : Exec S A) (s : S) (Q : A → S → Type 0) (E : S → Type 0)
      → (b ≡ true → Ends Q E (m s))
      → (b ≡ false → Ends Q E (n s))
      → Ends Q E ((if b then m else n) s)
  Ends-choose true m n s Q E h h' = h refl
  Ends-choose false m n s Q E h h' = h' refl
