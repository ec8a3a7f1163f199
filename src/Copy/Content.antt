-- ===== src/Copy/Content.antt =====
-- What the destination is behind a copy.
use bcmr.Prelude.{ℕ, zero, suc, ◌+◌, ◌-◌, ◌^◌, ◌≡◌, ◌≢◌, ◌≤◌, ◌<◌, refl, sym, ap, ◌∙◌, arith}
use bcmr.Prelude.{Bool, Option, none, some, List, ◌++◌, append_assoc, append-nil, ◌⊎◌, inl, inr}
use bcmr.Prelude.{length, length-append, concat, take, drop, length-take_of_le}
use bcmr.Prelude.{take-append-drop}
use bcmr.Bytes.Word.{Bytes}
use bcmr.Bytes.Write.{zeros, drop_long}
use bcmr.Bytes.Digest.{Blake3}
use bcmr.Errors.{ok}
use bcmr.Errors.Runs.{Runs, Runs-ok, Runs-bind, Runs-imp}
use bcmr.Session.{Session}
use bcmr.Copy.{SparseMode, never, always, auto, CopyState, Faults, copy_loop, last_block}
use bcmr.Copy.{grow, last_hole, final_hash, conclude, save_hashed, begin, streaming_copy}
use bcmr.Copy.Loop.{Same, IsCalm, copy_loop-Holds}
use bcmr.Copy.Written.{IsWritten, IsWritten-Same, place-IsWritten, last_hole-IsWritten}
use bcmr.Copy.Holes.{IsSparse, IsSparse-Same, place-IsSparse, last_hole-IsSparse}

mode_cases : (mode : SparseMode) → (mode ≡ never) ⊎ (mode ≢ never)
mode_cases never = inl refl
mode_cases always = inr (λ e. cc)
mode_cases auto = inr (λ e. cc)

module _ (blake3 : Blake3) (block_size detect_size : ℕ) (faults : Faults) (calm : IsCalm faults)
    (start_offset : ℕ) (need_src_hash : Bool) (session : Option Session) where
  save_hashed-file :
      (o h : Option Bytes) (x : Option Session) (st : CopyState)
      → (save_hashed blake3 block_size detect_size faults x h st).file ≡ st.file
  unfolding save_hashed
  save_hashed-file o none none st = refl
  save_hashed-file o (some h) none st = refl
  save_hashed-file o none (some x) st = refl
  save_hashed-file o (some h) (some x) st = refl

  conclude-file :
      (start : ℕ) (target : Bytes) (st : CopyState)
      → st.file ≡ target
      → Runs (conclude blake3 block_size detect_size faults start st) (λ t. t.file ≡ target)
  unfolding conclude
  conclude-file zero target st e =
      let hash = final_hash blake3 block_size detect_size faults st.src_hashed in
      Runs-ok hash _ _ (save_hashed-file none hash st.session st ∙ e)
  conclude-file (suc n) target st e = Runs-ok none st _ e

  -- Behind the loop: `Holds` is kept by what does not concern the destination.
  module _ (mode : SparseMode) (parts : List Bytes) (file target : Bytes)
      (Holds : CopyState → Type 0) (keeps : (s t : CopyState) → Same s t → Holds s → Holds t)
      (looped : Runs
        (copy_loop blake3 block_size detect_size faults mode none parts
          (begin blake3 block_size detect_size faults start_offset need_src_hash session file))
        Holds)
      (ends : (s : CopyState)
        → Holds s
        → Runs (last_hole blake3 block_size detect_size faults s) (λ t. t.file ≡ target)) where
    pub streaming_copy-target :
        Runs
          (streaming_copy blake3 block_size detect_size faults mode start_offset need_src_hash
            session parts none file)
          (λ t. t.file ≡ target)
    unfolding streaming_copy last_block
    streaming_copy-target =
        let Final : CopyState → Type 0 = λ t. t.file ≡ target in
        Runs-bind _ _ _ Holds Final looped (λ _ s h.
          Runs-bind _ _ s Holds Final
            (Runs-ok tt _ Holds
              (keeps s _ (record { file = refl; position = refl; pending_hole = refl }) h))
            (λ _ t ht.
              Runs-bind _ _ t Final Final (ends t ht)
                (λ _ u e. conclude-file start_offset target u e)))

  -- A copy in any mode but `never`.
  sparse-target :
      (mode : SparseMode) (parts : List Bytes) (file : Bytes)
      → 1 ≤ detect_size
      → mode ≢ never
      → start_offset + length (concat parts) < 2 ^ 63
      → start_offset ≤ length file
      → length file ≤ start_offset + length (concat parts)
      → drop start_offset file ≡ zeros (length file - start_offset)
      → Runs
          (streaming_copy blake3 block_size detect_size faults mode start_offset need_src_hash
            session parts none file)
          (λ t. t.file ≡ take start_offset file ++ concat parts)
  unfolding begin last_hole grow
  sparse-target mode parts file progress sparse room lo hi blank =
      let limit = start_offset + length (concat parts) in
      let front = take start_offset file in
      let target = front ++ concat parts in
      let size : length front ≡ start_offset = length-take_of_le start_offset file lo in
      let total : length target ≡ limit = omega (arith, length-append front (concat parts), size) in
      streaming_copy-target mode parts file target (IsSparse limit target)
        (IsSparse-Same limit target)
        (copy_loop-Holds blake3 block_size detect_size faults calm mode limit (IsSparse limit)
          (IsSparse-Same limit)
          (λ content part st fits h.
            place-IsSparse blake3 block_size detect_size faults calm limit room progress mode
              content part st sparse fits h)
          parts front _ (omega (arith, size))
          (record {
            front = front;
            tail = length file - start_offset;
            file = sym (take-append-drop start_offset file) ∙ rw blank refl;
            position = sym size;
            taken = sym (append-nil front);
            within = omega (arith, size, lo, hi);
          }))
        (λ s h.
          last_hole-IsSparse blake3 block_size detect_size faults calm limit room target s total h)

  written-target :
      (parts : List Bytes) (file : Bytes)
      → start_offset ≤ length file
      → Runs
          (streaming_copy blake3 block_size detect_size faults never start_offset need_src_hash
            session parts none file)
          (λ t.
            t.file
            ≡ take start_offset file
              ++ (concat parts ++ drop (start_offset + length (concat parts)) file))
  unfolding begin last_hole
  written-target parts file lo =
      let front = take start_offset file in
      let target = front ++ concat parts in
      let size : length front ≡ start_offset = length-take_of_le start_offset file lo in
      let total = length-append front (concat parts) in
      streaming_copy-target never parts file _ (IsWritten file target) (IsWritten-Same file target)
        (copy_loop-Holds blake3 block_size detect_size faults calm never (length target)
          (IsWritten file) (IsWritten-Same file)
          (λ content part st _ h.
            place-IsWritten blake3 block_size detect_size faults calm file content part st h)
          parts front _ (omega (arith, total))
          (record {
            target = sym (take-append-drop start_offset file) ∙ rw size refl;
            position = sym size;
            pending_hole = refl;
          }))
        (λ s h.
          Runs-imp _ (λ t. t.file ≡ target ++ drop (length target) file) _
            (last_hole-IsWritten blake3 block_size detect_size faults calm file target s h)
            (λ t e. e ∙ rw (total, size, append_assoc front (concat parts)) refl))

  -- The destination has zeros behind the place where the copy starts, and is not longer than the
  -- source.
  pub record IsBlank (parts : List Bytes) (file : Bytes) : Type 0 where
    pub within : length file ≤ start_offset + length (concat parts)
    pub blank : drop start_offset file ≡ zeros (length file - start_offset)

  -- If nothing fails and the source has less than 2 ^ 63 bytes, a copy that starts within the
  -- destination succeeds, in whatever parts the source is read, and behind it the destination is
  -- what it was before that place, then what was read, then what it was behind that. Where the copy
  -- looks for holes, in pieces of at least one byte, this holds if the destination has only zeros
  -- behind the place where the copy starts, and is not longer than the source.
  pub streaming_copy-file :
      (mode : SparseMode) (parts : List Bytes) (file : Bytes)
      → 1 ≤ detect_size
      → start_offset + length (concat parts) < 2 ^ 63
      → start_offset ≤ length file
      → (mode ≡ never) ⊎ IsBlank parts file
      → (hash : Option Bytes) × (t : CopyState) × (streaming_copy blake3 block_size detect_size
            faults mode start_offset need_src_hash session parts none file
          ≡ (ok hash, t))
        × (t.file
            ≡ take start_offset file
              ++ (concat parts ++ drop (start_offset + length (concat parts)) file))
  unfolding Runs
  streaming_copy-file mode parts file progress room lo either = elim (mode_cases mode) [
    | inl is ↦ rw is (written-target parts file lo)
    | inr sparse ↦ elim either [
      | inl is ↦ absurd (sparse is)
      | inr ready ↦
          Runs-imp _ (λ t. t.file ≡ take start_offset file ++ concat parts) _
            (sparse-target mode parts file progress sparse room lo ready.within ready.blank)
            (λ t e.
              e
              ∙ ap (λ (rest : Bytes). take start_offset file ++ rest)
                  (sym (append-nil (concat parts))
                    ∙ ap (λ (end : Bytes). concat parts ++ end)
                        (sym (drop_long (start_offset + length (concat parts)) file ready.within))))
    ]
  ]
