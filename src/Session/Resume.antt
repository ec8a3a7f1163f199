-- ===== src/Session/Resume.antt =====
-- `find_resume_offset` of src/core/session.rs: where a copy that was interrupted goes on. The size
-- of a block, 4 MiB in the source, is a parameter here.
use bcmr.Prelude.{ℕ, zero, suc, ◌+◌, ◌*◌, ◌≤◌, ◌<◌, ◌≡◌, ◌↔◌, ◌∙◌, refl, arith, ltb, ◌==◌, not}
use bcmr.Prelude.{if◌then◌else◌, Bool, true, false, Bool-cases, Option, none, some, List, length}
use bcmr.Prelude.{
  ◌⊎◌, inl, inr, Option-cases, ltb→lt, length-take_of_le, get_elem?, take, drop, ltb→le,
  length-drop,
}
use mathlib.Core.Path.{subst}
use native.Mathlib.Decide.{ℕ_discrete}
use bcmr.Bytes.Word.{Bytes}
use bcmr.Bytes.Equal.{bytes_eq, bytes_eq_iff}
use bcmr.Bytes.Digest.{Blake3}
use bcmr.Session.{Session}

-- A file that could be opened: its content, and the offsets at which a seek or a read fails.
pub record OpenFile : Type 0 where
  pub content : Bytes
  pub fails : ℕ → Bool

module _ (blake3 : Blake3) (block_size : ℕ) where
  -- What is read at an offset.
  abbrev pub block : Bytes → ℕ → Bytes
  block content offset = take block_size (drop offset content)

  -- `hash.as_bytes() == &self.block_hashes[i]`; the index is in range.
  unfoldable pub matches : List Bytes → ℕ → Bytes → Bool
  matches hashes i buf = elim (get_elem? hashes i) [
    | none ↦ false
    | some h ↦ bytes_eq (blake3.hash buf) h
  ]

  -- One round of the loop; `later` is what the rounds for lower indices return.
  unfoldable pub resume_round : OpenFile → List Bytes → ℕ → ℕ → ℕ
  resume_round file hashes i later =
      let block_offset = i * block_size in
      let block_end = block_offset + block_size in
      let buf = block file.content block_offset in
      if ltb (length file.content) block_end
      then later
      else if file.fails block_offset
      then 0
      else if not (length buf == block_size)
      then later
      else if matches hashes i buf
      then block_end
      else later

  -- The rounds for the indices below `n`, from the highest one down.
  unfoldable pub resume_loop : OpenFile → List Bytes → ℕ → ℕ
  resume_loop file hashes zero = 0
  resume_loop file hashes (suc i) = resume_round file hashes i (resume_loop file hashes i)

  -- `none` where the destination cannot be opened or has no metadata.
  unfoldable pub find_resume_offset : Option OpenFile → Session → ℕ
  find_resume_offset none s = 0
  find_resume_offset (some file) s = resume_loop file s.block_hashes (length s.block_hashes)

  -- The block with index `i` lies within the file, and its digest is the one recorded.
  pub record IsVerified (content : Bytes) (hashes : List Bytes) (i : ℕ) : Type 0 where
    pub within : i * block_size + block_size ≤ length content
    pub recorded : get_elem? hashes i ≡ some (blake3.hash (block content (i * block_size)))

  matches_iff :
      (hashes : List Bytes) (i : ℕ) (buf : Bytes)
      → (matches hashes i buf ≡ true) ↔ (get_elem? hashes i ≡ some (blake3.hash buf))
  unfolding matches
  matches_iff hashes i buf = elim (Option-cases (get_elem? hashes i)) [
    | inl out ↦ (λ e. ground (arith, out), λ e. ground (arith, out))
    | inr (h, at) ↦ (
      λ e. ground (arith, at, (bytes_eq_iff (blake3.hash buf) h).0),
      λ e. ground (arith, at, (bytes_eq_iff (blake3.hash buf) h).1),
    )
  ]

  length-block :
      (content : Bytes) (offset : ℕ)
      → offset + block_size ≤ length content
      → length (block content offset) ≡ block_size
  length-block content offset h =
      length-take_of_le block_size (drop offset content) (omega (arith, length-drop offset content))

  module _ (file : OpenFile) (hashes : List Bytes) (i later : ℕ) where
    abbrev at_offset : Bytes
    at_offset = block file.content (i * block_size)

    read_cases :
        (length file.content < i * block_size + block_size → ⊥)
        → file.fails (i * block_size) ≡ false
        → ((resume_round file hashes i later ≡ later) × (¬ IsVerified file.content hashes i))
          ⊎ ((resume_round file hashes i later ≡ i * block_size + block_size)
              × IsVerified file.content hashes i)
    unfolding resume_round
    read_cases fits fine =
        let within : i * block_size + block_size ≤ length file.content = omega arith in
        let whole = length-block file.content (i * block_size) within in
        elim (Bool-cases (matches hashes i at_offset)) [
          | inl hit ↦ inr (
            ground (arith, fine, whole, hit),
            record { within = within; recorded = (matches_iff hashes i at_offset).0 hit },
          )
          | inr miss ↦ inl (
            ground (arith, fine, whole, miss),
            λ v. cc ((matches_iff hashes i at_offset).1 v.recorded, miss),
          )
        ]

    -- A round goes on below, gives up on a read error, or has found a verified block.
    round_cases :
        ((resume_round file hashes i later ≡ later) × (¬ IsVerified file.content hashes i))
        ⊎ ((resume_round file hashes i later ≡ 0) × (file.fails (i * block_size) ≡ true))
        ⊎ ((resume_round file hashes i later ≡ i * block_size + block_size)
            × IsVerified file.content hashes i)
    unfolding resume_round
    round_cases = elim (Bool-cases (ltb (length file.content) (i * block_size + block_size))) [
      | inl short ↦ inl (ground (arith, short), λ v. omega (arith, ltb→lt _ _ short, v.within))
      | inr fits ↦ elim (Bool-cases (file.fails (i * block_size))) [
        | inl bad ↦ inr (inl (ground (arith, fits, bad), bad))
        | inr fine ↦ elim (read_cases (λ h. omega (arith, ltb→le _ _ fits)) fine) [
          | inl miss ↦ inl miss
          | inr hit ↦ inr (inr hit)
        ]
      ]
    ]

  -- The offset is 0, or the end of a block that is verified.
  resume_loop-IsVerified :
      (file : OpenFile) (hashes : List Bytes) (n : ℕ)
      → (resume_loop file hashes n ≡ 0)
        ⊎ ((i : ℕ) × (i < n)
            × (resume_loop file hashes n ≡ i * block_size + block_size)
            × IsVerified file.content hashes i)
  unfolding resume_loop
  resume_loop-IsVerified file hashes zero = inl refl
  resume_loop-IsVerified file hashes (suc i) =
      elim (round_cases file hashes i (resume_loop file hashes i)) [
        | inl (on, _) ↦ elim (resume_loop-IsVerified file hashes i) [
          | inl none_found ↦ inl (on ∙ none_found)
          | inr (k, lt, at, v) ↦ inr (k, omega arith, on ∙ at, v)
        ]
        | inr (inl (gave_up, _)) ↦ inl gave_up
        | inr (inr (found, v)) ↦ inr (i, omega arith, found, v)
      ]

  below : (k i : ℕ) → k ≤ i → k * block_size + block_size ≤ i * block_size + block_size
  below k i h = grind arith

  -- No verified block ends behind the offset, if no read fails.
  resume_loop-latest :
      (file : OpenFile) (hashes : List Bytes) (n : ℕ)
      → ((offset : ℕ) → file.fails offset ≡ false)
      → (k : ℕ) → k < n
      → IsVerified file.content hashes k
      → k * block_size + block_size ≤ resume_loop file hashes n
  unfolding resume_loop
  resume_loop-latest file hashes zero fine k lt v = absurd (omega arith)
  resume_loop-latest file hashes (suc i) fine k lt v =
      elim (round_cases file hashes i (resume_loop file hashes i)) [
        | inl (on, not_here) ↦ elim (ℕ_discrete k i) [
          | yes same ↦ absurd (not_here (subst (IsVerified file.content hashes) same v))
          | no differs ↦ omega (arith, on, resume_loop-latest file hashes i fine k (omega arith) v)
        ]
        | inr (inl (_, bad)) ↦ absurd (cc (fine (i * block_size)))
        | inr (inr (found, _)) ↦ omega (arith, found, below k i (omega arith))
      ]

  pub find_resume_offset-IsVerified :
      (file : OpenFile) (s : Session)
      → ((find_resume_offset (some file) s ≡ 0)
          ⊎ ((i : ℕ) × (i < length s.block_hashes)
              × (find_resume_offset (some file) s ≡ i * block_size + block_size)
              × IsVerified file.content s.block_hashes i))
        × (find_resume_offset (some file) s ≤ length file.content)
  unfolding find_resume_offset
  find_resume_offset-IsVerified file s =
      let place = resume_loop-IsVerified file s.block_hashes (length s.block_hashes) in
      (
        place,
        elim place [
          | inl start ↦ omega (arith, start)
          | inr (i, lt, at, v) ↦ omega (arith, at, v.within)
        ],
      )

  -- If nothing of the destination fails to be read, no block whose digest is the recorded one ends
  -- behind the place where a copy is resumed.
  pub find_resume_offset-latest :
      (file : OpenFile) (s : Session) (k : ℕ)
      → ((offset : ℕ) → file.fails offset ≡ false)
      → k < length s.block_hashes
      → IsVerified file.content s.block_hashes k
      → k * block_size + block_size ≤ find_resume_offset (some file) s
  unfolding find_resume_offset
  find_resume_offset-latest file s k fine =
      resume_loop-latest file s.block_hashes (length s.block_hashes) fine k
