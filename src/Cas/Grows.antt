-- ===== src/Cas/Grows.antt =====
-- What stays in the store when blocks are read and written.
use bcmr.Prelude.{arith, ℕ, ◌≡◌, refl, ◌∙◌, Bool, true, false, Bool-cases, inl, inr, some}
use bcmr.Prelude.{[], ◌∷◌, All}
use bcmr.Bytes.Word.{Bytes}
use bcmr.Bytes.Equal.{bytes_eq}
use bcmr.Errors.{ok}
use bcmr.Cas.{Blob, Cas, find, is_some, has, touch, served, read, write}

pub has-touch :
    (now : ℕ) (hash other_hash : Bytes) (cas : Cas)
    → has hash (touch now other_hash cas) ≡ has hash cas
unfolding has find touch is_some
has-touch now hash other_hash [] = refl
has-touch now hash other_hash (blob ∷ cas) = elim (Bool-cases (bytes_eq blob.hash other_hash)) [
  | inl this ↦ elim (Bool-cases (bytes_eq blob.hash hash)) [
    | inl found ↦ rw (this, found) refl
    | inr differs ↦ rw (this, differs) refl
  ]
  | inr that ↦ elim (Bool-cases (bytes_eq blob.hash hash)) [
    | inl found ↦ rw (that, found) refl
    | inr differs ↦ rw (that, differs) (has-touch now hash other_hash cas)
  ]
]

has-first :
    (name content hash : Bytes) (now : ℕ) (cas : Cas) (b : Bool)
    → bytes_eq name hash ≡ b
    → has hash cas ≡ true
    → has hash (record { hash = name; content = content; mtime = now } ∷ cas) ≡ true
unfolding has find is_some
has-first name content hash now cas true e h = rw e refl
has-first name content hash now cas false e h = rw e h

pub has-write :
    (now : ℕ) (fails : Bool) (name content hash : Bytes) (cas : Cas)
    → has hash cas ≡ true
    → has hash (write now fails name content cas).1 ≡ true
unfolding write
has-write now fails name content hash cas h = elim (Bool-cases (has name cas)) [
  | inl there ↦ rw there (has-touch now hash name cas ∙ h)
  | inr new ↦ elim (Bool-cases fails) [
    | inl failed ↦ rw (new, failed) h
    | inr fine ↦ rw (new, fine) (has-first name content hash now cas _ refl h)
  ]
]

-- The contents of the blocks.
abbrev pub Holds : (Bytes → Type 0) → Cas → Type 0
Holds P cas = All (λ (blob : Blob). P blob.content) cas

pub touch-Holds :
    (P : Bytes → Type 0) (now : ℕ) (hash : Bytes) (cas : Cas)
    → Holds P cas
    → Holds P (touch now hash cas)
unfolding touch
touch-Holds P now hash [] h = tt
touch-Holds P now hash (blob ∷ cas) (p, h) = elim (Bool-cases (bytes_eq blob.hash hash)) [
  | inl this ↦ rw this (p, h)
  | inr that ↦ rw that (p, touch-Holds P now hash cas h)
]

pub write-Holds :
    (P : Bytes → Type 0) (now : ℕ) (fails : Bool) (name content : Bytes) (cas : Cas)
    → P content
    → Holds P cas
    → Holds P (write now fails name content cas).1
unfolding write
write-Holds P now fails name content cas p h = elim (Bool-cases (has name cas)) [
  | inl there ↦ rw there (touch-Holds P now name cas h)
  | inr new ↦ elim (Bool-cases fails) [
    | inl failed ↦ rw (new, failed) h
    | inr fine ↦ rw (new, fine) (p, h)
  ]
]

find-Holds :
    (P : Bytes → Type 0) (hash : Bytes) (cas : Cas)
    → Holds P cas
    → has hash cas ≡ true
    → (blob : Blob) × (find hash cas ≡ some blob) × P blob.content
unfolding has find is_some
find-Holds P hash [] h e = absurd (ground (arith, e))
find-Holds P hash (blob ∷ cas) (p, h) e = elim (Bool-cases (bytes_eq blob.hash hash)) [
  | inl this ↦ (blob, rw this refl, p)
  | inr that ↦
      let (found, same, q) = find-Holds P hash cas h (rw that at e) in (found, rw that same, q)
]

-- A block that the store has can be read.
pub read-Holds :
    (P : Bytes → Type 0) (now : ℕ) (hash : Bytes) (cas : Cas)
    → Holds P cas
    → has hash cas ≡ true
    → (content : Bytes) × (read now hash cas ≡ (ok content, touch now hash cas)) × P content
unfolding read served
read-Holds P now hash cas h e =
    let (blob, found, p) = find-Holds P hash cas h e in (blob.content, rw found refl, p)
