-- ===== src/Cas/Evict.antt =====
-- Eviction frees what it must, oldest blocks first.
use bcmr.Prelude.{leb→le, leb→lt, ℕ, ◌+◌, ◌-◌, ◌≤◌, ◌≡◌, refl, ap, ◌∙◌, arith, leb, Bool-cases}
use bcmr.Prelude.{Bool, false, inl, inr, [], ◌∷◌, ◌++◌, length, All}
use mathlib.Core.List.{Perm}
use mathlib.Core.List.Perm
use bcmr.Cas.{Blob, Cas, total, insert, sort, keep, evict_loop, evict_to_cap}

total-insert : (blob : Blob) (cas : Cas) → total (insert blob cas) ≡ length blob.content + total cas
unfolding insert total
total-insert blob [] = refl
total-insert blob (next ∷ cas) = ground (arith, total-insert blob cas)

total-sort : (cas : Cas) → total (sort cas) ≡ total cas
unfolding sort total
total-sort [] = refl
total-sort (blob ∷ cas) =
    total-insert blob (sort cas) ∙ ap (λ n. length blob.content + n) (total-sort cas)

-- What was freed and what is left are the whole, whatever could not be removed.
evict_loop-total :
    (stuck : Blob → Bool) (sum limit freed : ℕ) (cas : Cas)
    → (evict_loop stuck sum limit freed cas).freed
        + total (evict_loop stuck sum limit freed cas).left
      ≡ freed + total cas
unfolding evict_loop total keep
evict_loop-total stuck sum limit freed [] = refl
evict_loop-total stuck sum limit freed (blob ∷ cas) =
    let size : ℕ = length blob.content in
    let kept = evict_loop-total stuck sum limit freed cas in
    let removed = evict_loop-total stuck sum limit (freed + size) cas in
    elim (Bool-cases (leb (sum - freed) limit)) [
      | inl enough ↦ rw enough refl
      | inr more ↦ elim (Bool-cases (stuck blob)) [
        | inl shut ↦ rw (more, shut) (omega (arith, kept))
        | inr open_ ↦ rw (more, open_) (omega (arith, removed))
      ]
    ]

-- The loop goes on until enough is freed, if every file can be removed.
evict_loop-enough :
    (stuck : Blob → Bool) (sum limit freed : ℕ) (cas : Cas)
    → ((blob : Blob) → stuck blob ≡ false)
    → sum ≤ freed + total cas
    → sum - (evict_loop stuck sum limit freed cas).freed ≤ limit
unfolding evict_loop total
evict_loop-enough stuck sum limit freed [] free h = omega arith
evict_loop-enough stuck sum limit freed (blob ∷ cas) free h =
    elim (Bool-cases (leb (sum - freed) limit)) [
      | inl enough ↦ ground (arith, enough)
      | inr more ↦
          rw (more, free blob)
            (evict_loop-enough stuck sum limit (freed + length blob.content) cas free (omega arith))
    ]

-- After an eviction in which every file can be removed, the store is within its cap.
pub evict_to_cap-within :
    (stuck : Blob → Bool) (limit : ℕ) (cas : Cas)
    → ((blob : Blob) → stuck blob ≡ false)
    → total (evict_to_cap stuck limit cas).left ≤ limit
unfolding evict_to_cap
evict_to_cap-within stuck limit cas free = elim (Bool-cases (leb (total cas) limit)) [
  | inl small ↦ rw small (omega (arith, leb→le _ _ small))
  | inr large ↦
      let loop = evict_loop-total stuck (total cas) limit 0 (sort cas) in
      let enough =
        evict_loop-enough stuck (total cas) limit 0 (sort cas) free
          (omega (arith, total-sort cas)) in
      rw large (omega (arith, loop, enough, total-sort cas))
]

-- Oldest first.
abbrev Sorted : Cas → Type 0
Sorted [] = Unit
Sorted (blob ∷ cas) = All (λ other. blob.mtime ≤ other.mtime) cas × Sorted cas

All-insert :
    (P : Blob → Type 0) (blob : Blob) (cas : Cas) → P blob → All P cas → All P (insert blob cas)
unfolding insert
All-insert P blob [] h a = (h, tt)
All-insert P blob (next ∷ cas) h (hn, a) = elim (Bool-cases (leb blob.mtime next.mtime)) [
  | inl here ↦ rw here (h, (hn, a))
  | inr there ↦ rw there (hn, All-insert P blob cas h a)
]

All-older :
    (a b : ℕ) (cas : Cas)
    → a ≤ b
    → All (λ other. b ≤ other.mtime) cas
    → All (λ other. a ≤ other.mtime) cas
All-older a b [] h all = tt
All-older a b (blob ∷ cas) h (hb, all) = (omega arith, All-older a b cas h all)

insert-Sorted : (blob : Blob) (cas : Cas) → Sorted cas → Sorted (insert blob cas)
unfolding insert
insert-Sorted blob [] s = (tt, tt)
insert-Sorted blob (next ∷ cas) (h, s) = elim (Bool-cases (leb blob.mtime next.mtime)) [
  | inl here ↦
      let le = leb→le _ _ here in rw here ((le, All-older blob.mtime next.mtime cas le h), (h, s))
  | inr there ↦
      let lt = leb→lt _ _ there in
      rw there (
        All-insert (λ other. next.mtime ≤ other.mtime) blob cas (omega arith) h,
        insert-Sorted blob cas s,
      )
]

sort-Sorted : (cas : Cas) → Sorted (sort cas)
unfolding sort
sort-Sorted [] = tt
sort-Sorted (blob ∷ cas) = insert-Sorted blob (sort cas) (sort-Sorted cas)

insert-Perm : (blob : Blob) (cas : Cas) → Perm (blob ∷ cas) (insert blob cas)
unfolding insert
insert-Perm blob [] = Perm.refl (blob ∷ [])
insert-Perm blob (next ∷ cas) = elim (Bool-cases (leb blob.mtime next.mtime)) [
  | inl here ↦ rw here (Perm.refl (blob ∷ next ∷ cas))
  | inr there ↦
      rw there (Perm.trans (Perm.swap next blob cas) (Perm.cons next (insert-Perm blob cas)))
]

sort-Perm : (cas : Cas) → Perm cas (sort cas)
unfolding sort
sort-Perm [] = Perm.refl []
sort-Perm (blob ∷ cas) = Perm.trans (Perm.cons blob (sort-Perm cas)) (insert-Perm blob (sort cas))

evict_loop_prefix :
    (stuck : Blob → Bool) (sum limit freed : ℕ) (cas : Cas)
    → ((blob : Blob) → stuck blob ≡ false)
    → (gone : Cas) × (cas ≡ gone ++ (evict_loop stuck sum limit freed cas).left)
      × ((evict_loop stuck sum limit freed cas).freed ≡ freed + total gone)
unfolding evict_loop total
evict_loop_prefix stuck sum limit freed [] free = ([], refl, omega arith)
evict_loop_prefix stuck sum limit freed (blob ∷ cas) free =
    elim (Bool-cases (leb (sum - freed) limit)) [
      | inl enough ↦ ([], rw enough refl, rw enough (omega arith))
      | inr more ↦
          let (gone, whole, size) =
            evict_loop_prefix stuck sum limit (freed + length blob.content) cas free in
          (
            blob ∷ gone,
            rw (more, free blob) (ap (λ (c : Cas). blob ∷ c) whole),
            rw (more, free blob) (omega (arith, size)),
          )
    ]

-- Every one of `gone` is at most as new as every one of `left`.
abbrev pub Older : Cas → Cas → Type 0
Older gone left = All (λ old. All (λ other. old.mtime ≤ other.mtime) left) gone

All-behind : (P : Blob → Type 0) (gone left : Cas) → All P (gone ++ left) → All P left
All-behind P [] left h = h
All-behind P (blob ∷ gone) left (h, a) = All-behind P gone left a

Sorted-Older : (gone left : Cas) → Sorted (gone ++ left) → Older gone left
Sorted-Older [] left s = tt
Sorted-Older (blob ∷ gone) left (h, s) =
    (All-behind (λ other. blob.mtime ≤ other.mtime) gone left h, Sorted-Older gone left s)

-- If every file can be removed, what an eviction removes and what it leaves are together the store,
-- the removed blocks are the oldest ones, and it reports their size.
pub evict_to_cap-Older :
    (stuck : Blob → Bool) (limit : ℕ) (cas : Cas)
    → ((blob : Blob) → stuck blob ≡ false)
    → (gone : Cas) × Perm cas (gone ++ (evict_to_cap stuck limit cas).left)
      × Older gone (evict_to_cap stuck limit cas).left
      × ((evict_to_cap stuck limit cas).freed ≡ total gone)
unfolding evict_to_cap total
evict_to_cap-Older stuck limit cas free = elim (Bool-cases (leb (total cas) limit)) [
  | inl small ↦ ([], rw small (Perm.refl cas), tt, rw small refl)
  | inr large ↦
      let (gone, whole, size) = evict_loop_prefix stuck (total cas) limit 0 (sort cas) free in
      (
        gone,
        rw large (rw whole at (sort-Perm cas)),
        rw large (Sorted-Older gone _ (rw whole at (sort-Sorted cas))),
        rw large (omega (arith, size)),
      )
]

-- Whatever cannot be removed, what an eviction reports as freed is what the store has lost.
pub evict_to_cap-total :
    (stuck : Blob → Bool) (limit : ℕ) (cas : Cas)
    → (evict_to_cap stuck limit cas).freed + total (evict_to_cap stuck limit cas).left ≡ total cas
unfolding evict_to_cap
evict_to_cap-total stuck limit cas = elim (Bool-cases (leb (total cas) limit)) [
  | inl small ↦ rw small (omega arith)
  | inr large ↦
      rw large
        (omega (arith, evict_loop-total stuck (total cas) limit 0 (sort cas), total-sort cas))
]
