-- ===== src/FileCopy/Streamed.antt =====
-- What the loop leaves in a new file where it succeeds.
use bcmr.Prelude.{ℕ, ◌+◌, ◌-◌, ◌^◌, ◌≡◌, ◌≢◌, ◌≤◌, ◌<◌, refl, sym, ap, ◌∙◌, arith, inl, inr}
use bcmr.Prelude.{Bool, ltb, Bool-cases, Option, none, some, List, [], ◌∷◌, ◌++◌}
use bcmr.Prelude.{Option-cases, length, take, drop, concat, append-nil}
use bcmr.Bytes.Word.{Bytes}
use bcmr.Bytes.Write.{zeros, length-zeros, drop_long}
use bcmr.Bytes.Digest.{Blake3}
use bcmr.Errors.{BcmrError, Result, ok, err, bind_inv}
use bcmr.Session.{Session}
use bcmr.Resume.{SourceFile}
use bcmr.Resume.Preallocated.{preallocated}
use bcmr.Copy
use bcmr.Copy.{SparseMode, never, CopyState, copy_loop, begin, streaming_copy}
use bcmr.Copy.Loop.{IsCalm}
use bcmr.Copy.Content.{streaming_copy-file}
use bcmr.Copy.Calmed.{calmed, calmed-IsCalm, streaming_copy-calmed}
use bcmr.FileCopy.Calls.{CopySettings, Machine, moved}
use bcmr.FileCopy.{allocated}

-- The source does not change: reading it to its end returns its content, and a call of
-- `copy_file_range` before its end moves a byte.
pub record IsSteady (machine : Machine) (content : Bytes) : Type 0 where
  pub reads : machine.ending 0 ≡ none → concat (machine.parts 0) ≡ content
  pub moves : (at : ℕ) → at < length content → machine.range at ≢ moved 0
  pub room : length content < 2 ^ 63

module _ (blake3 : Blake3) (block_size detect_size : ℕ) (session_dir : Bytes) (machine : Machine)
    (src : SourceFile) (dst : Bytes) (opts : CopySettings) (progress : 1 ≤ detect_size)
    (steady : IsSteady machine src.content) where
  -- A copy whose last read fails does not succeed.
  copy_loop-raises :
      (mode : SparseMode) (e : BcmrError) (parts : List Bytes) (s : CopyState) (a : Unit {0})
      (t : CopyState)
      → copy_loop blake3 block_size detect_size machine.copying mode (some e) parts s ≢ (ok a, t)
  unfolding copy_loop
  copy_loop-raises mode e [] s a t r = cc
  copy_loop-raises mode e (part ∷ parts) s a t r =
      let (u, v, ran, rest) = bind_inv _ _ r in copy_loop-raises mode e parts v a t rest

  abbrev pub blank_target : Bytes
  blank_target = allocated blake3 block_size detect_size session_dir machine src dst opts 0 []

  pub blank_target-zeros : (k : ℕ) × (k ≤ length src.content) × (blank_target ≡ zeros k)
  unfolding allocated preallocated
  blank_target-zeros = elim (Bool-cases machine.preallocates) [
    | inl fine ↦ elim (Bool-cases (ltb 0 (length src.content - 0))) [
      | inl more ↦ (length src.content - 0, omega arith, simp (fine, more) refl)
      | inr empty ↦ (0, omega arith, simp (fine, empty) refl)
    ]
    | inr fails ↦ (0, omega arith, simp fails refl)
  ]

  -- What is written over the preallocated bytes is the whole source.
  filled :
      machine.ending 0 ≡ none
      → concat (machine.parts 0) ++ drop (length (concat (machine.parts 0))) blank_target
        ≡ src.content
  filled ended =
      let whole = steady.reads ended in
      let size = ap (λ (c : Bytes). length c) whole in
      let (k, within, is) = blank_target-zeros in
      let short = ap (λ (c : Bytes). length c) is in
      ap (λ (rest : Bytes). concat (machine.parts 0) ++ rest)
        (drop_long (length (concat (machine.parts 0))) blank_target
          (omega (arith, size, short, length-zeros k, within)))
      ∙ append-nil (concat (machine.parts 0))
      ∙ whole

  copied :
      (faults : Copy.Faults) (mode : SparseMode) (need_src_hash : Bool) (session : Option Session)
      → IsCalm faults
      → machine.ending 0 ≡ none
      → (h : Option Bytes) × (t : CopyState) × (streaming_copy blake3 block_size detect_size faults
            mode 0 need_src_hash session
            (machine.parts 0)
            none
            blank_target
          ≡ (ok h, t))
        × (t.file ≡ src.content)
  unfolding take drop allocated
  copied faults mode need_src_hash session calm ended =
      let size = ap (λ (c : Bytes). length c) (steady.reads ended) in
      let (k, within, is) = blank_target-zeros in
      let short : length blank_target ≡ k = ap (λ (c : Bytes). length c) is ∙ length-zeros k in
      let n = length (concat (machine.parts 0)) in
      let front : 0 + n ≡ n = omega arith in
      let (h, t, ran, file) =
        streaming_copy-file blake3 block_size detect_size faults calm 0 need_src_hash session mode
          (machine.parts 0) blank_target progress (omega (arith, size, steady.room)) (omega arith)
          (inr (record {
            within = omega (arith, size, short, within);
            blank = is ∙ ap zeros (omega (arith, short));
          })) in
      (h, t, ran, rw front at file ∙ filled ended)

  pub streamed :
      (mode : SparseMode) (need_src_hash : Bool) (session : Option Session) (h : Option Bytes)
      (t : CopyState)
      → streaming_copy blake3 block_size detect_size machine.copying mode 0 need_src_hash session
          (machine.parts 0)
          (machine.ending 0)
          blank_target
        ≡ (ok h, t)
      → t.file ≡ src.content
  unfolding streaming_copy
  streamed mode need_src_hash session h t e = elim (Option-cases (machine.ending 0)) [
    | inl ended ↦
        let (h', t', ran, file) =
          copied (calmed machine.copying) mode need_src_hash session (calmed-IsCalm machine.copying)
            ended in
        let calm =
          streaming_copy-calmed blake3 block_size detect_size machine.copying mode 0 need_src_hash
            session (machine.parts 0) none blank_target h t (rw ended at e) in
        let same : t ≡ t' = ap (λ (r : Result (Option Bytes) × CopyState). r.1) (sym calm ∙ ran) in
        ap (λ (s : CopyState). s.file) same ∙ file
    | inr (x, raised) ↦
        let (a, s, ran, _) = bind_inv _ _ (rw raised at e) in
        absurd (copy_loop-raises mode x (machine.parts 0) _ a s ran)
  ]

  -- The loop fails only where a call does.
  pub stream_fails :
      (mode : SparseMode) (need_src_hash : Bool) (session : Option Session) (e : BcmrError)
      (t : CopyState)
      → IsCalm machine.copying
      → machine.ending 0 ≡ none
      → streaming_copy blake3 block_size detect_size machine.copying mode 0 need_src_hash session
          (machine.parts 0)
          (machine.ending 0)
          blank_target
        ≢ (err e, t)
  stream_fails mode need_src_hash session e t calm ended r =
      let (h', t', ran, _) = copied machine.copying mode need_src_hash session calm ended in
      let impossible = sym ran ∙ rw ended at r in cc
