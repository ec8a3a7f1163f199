-- ===== src/Cas/Addressed.antt =====
-- Every block of the store has the hash that its file is named by.
use bcmr.Prelude.{ℕ, ◌+◌, ◌-◌, ◌≡◌, refl, ap, ◌∙◌, sym, leb, Bool-cases, Bool}
use bcmr.Prelude.{inl, inr, Option, none, some, [], ◌∷◌, length, All}
use bcmr.Bytes.Word.{Bytes}
use bcmr.Bytes.Equal.{bytes_eq, bytes_eq_iff}
use bcmr.Bytes.Digest.{Blake3}
use bcmr.Errors.{ok}
use bcmr.Cas.{Blob, Cas, find, has, touch, served, read, write, total, insert, sort, keep}
use bcmr.Cas.{evict_loop, evict_to_cap}

module _ (blake3 : Blake3) where
  abbrev pub IsAddressed : Cas → Type 0
  IsAddressed cas = All (λ blob. blob.hash ≡ blake3.hash blob.content) cas

  pub touch-IsAddressed :
      (now : ℕ) (hash : Bytes) (cas : Cas) → IsAddressed cas → IsAddressed (touch now hash cas)
  unfolding touch
  touch-IsAddressed now hash [] a = tt
  touch-IsAddressed now hash (blob ∷ cas) (h, a) = elim (Bool-cases (bytes_eq blob.hash hash)) [
    | inl this ↦ rw this (h, a)
    | inr differs ↦ rw differs (h, touch-IsAddressed now hash cas a)
  ]

  -- What is found under a hash has that hash.
  find-IsAddressed :
      (hash : Bytes) (cas : Cas) (blob : Blob)
      → IsAddressed cas
      → find hash cas ≡ some blob
      → hash ≡ blake3.hash blob.content
  unfolding find
  find-IsAddressed hash [] blob a e = cc
  find-IsAddressed hash (first ∷ cas) blob (h, a) e = elim (Bool-cases (bytes_eq first.hash hash)) [
    | inl this ↦
        let found : some first ≡ some blob = rw this at e in
        let same : first ≡ blob = cc in
        let named : first.hash ≡ hash = (bytes_eq_iff first.hash hash).0 this in
        sym named ∙ h ∙ ap (λ (b : Blob). blake3.hash b.content) same
    | inr differs ↦ find-IsAddressed hash cas blob a (rw differs at e)
  ]

  pub write-IsAddressed :
      (now : ℕ) (fails : Bool) (content : Bytes) (cas : Cas)
      → IsAddressed cas
      → IsAddressed (write now fails (blake3.hash content) content cas).1
  unfolding write
  write-IsAddressed now fails content cas a = elim (Bool-cases (has (blake3.hash content) cas)) [
    | inl there ↦ rw there (touch-IsAddressed now (blake3.hash content) cas a)
    | inr new ↦ elim (Bool-cases fails) [
      | inl failed ↦ rw (new, failed) a
      | inr fine ↦ rw (new, fine) (refl, a)
    ]
  ]

  served-IsAddressed :
      (now : ℕ) (hash : Bytes) (cas : Cas) (o : Option Blob)
      → IsAddressed cas
      → IsAddressed (served now hash cas o).1
  unfolding served
  served-IsAddressed now hash cas none a = a
  served-IsAddressed now hash cas (some blob) a = touch-IsAddressed now hash cas a

  pub read-IsAddressed :
      (now : ℕ) (hash : Bytes) (cas : Cas) → IsAddressed cas → IsAddressed (read now hash cas).1
  unfolding read
  read-IsAddressed now hash cas a = served-IsAddressed now hash cas (find hash cas) a

  served-ok :
      (now : ℕ) (hash : Bytes) (cas : Cas) (o : Option Blob) (content : Bytes)
      → (served now hash cas o).0 ≡ ok content
      → (blob : Blob) × (o ≡ some blob) × (blob.content ≡ content)
  unfolding served
  served-ok now hash cas none content e = cc
  served-ok now hash cas (some blob) content e = (blob, refl, cc)

  -- What is read under a hash has that hash, if every block of the store has the hash that its file
  -- is named by.
  pub read-hash :
      (now : ℕ) (hash : Bytes) (cas : Cas) (content : Bytes)
      → IsAddressed cas
      → (read now hash cas).0 ≡ ok content
      → hash ≡ blake3.hash content
  unfolding read
  read-hash now hash cas content a e =
      let (blob, found, same) = served-ok now hash cas (find hash cas) content e in
      find-IsAddressed hash cas blob a found ∙ ap blake3.hash same

-- What holds of every block still does when some are removed.
module _ (P : Blob → Type 0) where
  insert-All : (blob : Blob) (cas : Cas) → P blob → All P cas → All P (insert blob cas)
  unfolding insert
  insert-All blob [] h a = (h, tt)
  insert-All blob (next ∷ cas) h (hn, a) = elim (Bool-cases (leb blob.mtime next.mtime)) [
    | inl here ↦ rw here (h, (hn, a))
    | inr there ↦ rw there (hn, insert-All blob cas h a)
  ]

  sort-All : (cas : Cas) → All P cas → All P (sort cas)
  unfolding sort
  sort-All [] a = tt
  sort-All (blob ∷ cas) (h, a) = insert-All blob (sort cas) h (sort-All cas a)

  evict_loop-All :
      (stuck : Blob → Bool) (sum limit freed : ℕ) (cas : Cas)
      → All P cas
      → All P (evict_loop stuck sum limit freed cas).left
  unfolding evict_loop keep
  evict_loop-All stuck sum limit freed [] a = tt
  evict_loop-All stuck sum limit freed (blob ∷ cas) (h, a) =
      elim (Bool-cases (leb (sum - freed) limit)) [
        | inl enough ↦ rw enough (h, a)
        | inr more ↦ elim (Bool-cases (stuck blob)) [
          | inl shut ↦ rw (more, shut) (h, evict_loop-All stuck sum limit freed cas a)
          | inr free ↦
              rw (more, free) (evict_loop-All stuck sum limit (freed + length blob.content) cas a)
        ]
      ]

  pub evict_to_cap-All :
      (stuck : Blob → Bool) (limit : ℕ) (cas : Cas)
      → All P cas
      → All P (evict_to_cap stuck limit cas).left
  unfolding evict_to_cap
  evict_to_cap-All stuck limit cas a = elim (Bool-cases (leb (total cas) limit)) [
    | inl small ↦ rw small a
    | inr large ↦ rw large (evict_loop-All stuck (total cas) limit 0 (sort cas) (sort-All cas a))
  ]
