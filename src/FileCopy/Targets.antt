-- ===== src/FileCopy/Targets.antt =====
-- What a copy through a temporary file writes before it reads the source: the clone, or what
-- `copy_file_range` moves.
use bcmr.Prelude.{ℕ, ◌+◌, ◌≡◌, ◌≢◌, ◌≤◌, refl, sym, ap, ◌∙◌, arith, inl, inr}
use bcmr.Prelude.{Bool, true, false, not, ◌&&◌, ◌||◌, if◌then◌else◌, Bool-cases, Option, none, some}
use bcmr.Prelude.{length, take, drop}
use bcmr.Bytes.Word.{Bytes}
use bcmr.Bytes.Write.{length-zeros}
use bcmr.Bytes.Digest.{Blake3}
use bcmr.Errors.{BcmrError, ok, err}
use bcmr.Errors.Ends.{Ends, Ends-if}
use bcmr.Session.Store.{put}
use bcmr.Session.Store.Crash.{put_self, put-ne}
use bcmr.Resume.{SourceFile}
use bcmr.FileCopy.Calls.{CopySettings, Disk, Machine}
use bcmr.FileCopy.Names.{temp_path_for}
use bcmr.FileCopy.Range.{RangeEnd}
use bcmr.FileCopy.{use_atomic, write_target, removed, try_reflink, allocated}
use bcmr.FileCopy.{keep_range, try_copy_file_range, passed_on, ranged}
use bcmr.FileCopy.{is_some, is_never, is_always}
use bcmr.FileCopy.Ranged.{range_loop-source, range_loop-fails}
use bcmr.FileCopy.Names.{temp_path_for-differs}
use bcmr.FileCopy.Finished.{Guarded, Ready, Renamed, Failed, before}
use bcmr.FileCopy.Finished.{IsUnhindered}
use bcmr.FileCopy.Streamed.{IsSteady, blank_target, blank_target-zeros}

-- Cloning is forced, and tried.
forced :
    (fatal tries sparse : Bool)
    → (not tries || sparse) ≡ false
    → fatal ≡ true
    → (fatal && tries && not sparse) ≡ true
forced fatal tries sparse = ground arith

module _ (blake3 : Blake3) (block_size detect_size : ℕ) (session_dir : Bytes) (machine : Machine)
    (src : SourceFile) (dst : Bytes) (opts : CopySettings) (progress : 1 ≤ detect_size)
    (steady : IsSteady machine src.content)
    (atomic : use_atomic blake3 block_size detect_size session_dir machine src dst opts ≡ true)
    (first : Disk) (p : Bytes) (not_dst : p ≢ dst) (not_temp : p ≢ temp_path_for dst) where
  abbrev pub Safe : Disk → Type 0
  Safe =
      Guarded blake3 block_size detect_size session_dir machine src dst opts first p not_dst
        not_temp

  abbrev pub Full : Disk → Type 0
  Full =
      Ready blake3 block_size detect_size session_dir machine src dst opts first p not_dst not_temp

  abbrev pub Done : Disk → Type 0
  Done =
      Renamed blake3 block_size detect_size session_dir machine src dst opts first p not_dst
        not_temp (some src.content)

  abbrev pub Error : Disk → Type 0
  Error =
      Failed blake3 block_size detect_size session_dir machine src dst opts first p not_dst not_temp

  abbrev pub target : Bytes
  target = write_target blake3 block_size detect_size session_dir machine src dst opts

  target-temp : target ≡ temp_path_for dst
  unfolding write_target
  target-temp = rw atomic refl

  -- A write to the temporary file.
  pub put-Safe :
      (content : Option Bytes) (s : Disk)
      → Safe s
      → Safe (record s { files = put target content s.files })
  put-Safe content s h = record {
    other_file = put-ne target p content s.files (λ e. not_temp (e ∙ target-temp)) ∙ h.other_file;
    target =
        put-ne target dst content s.files (λ e. temp_path_for-differs dst (sym (e ∙ target-temp)))
        ∙ h.target;
    guard = h.guard;
  }

  pub put-Full :
      (content : Bytes) (s : Disk)
      → Safe s
      → content ≡ src.content
      → Full (record s { files = put target (some content) s.files })
  put-Full content s h e = (
    put-Safe (some content) s h,
    ap (λ (q : Bytes). put target (some content) s.files q) (sym target-temp)
        ∙ put_self target (some content) s.files
        ∙ ap (λ (c : Bytes). some c) e,
  )

  removed-Safe :
      (s : Disk)
      → Safe s
      → Safe (record s {
        files =
            removed blake3 block_size detect_size session_dir machine src dst opts target s.files;
      })
  unfolding removed
  removed-Safe s h = elim (Bool-cases (machine.sticks target)) [
    | inl stuck ↦ rw stuck h
    | inr free ↦ rw free (put-Safe none s h)
  ]

  -- The temporary file is there only if the clone was made.
  unfoldable pub Linked : Bool → Disk → Type 0
  Linked true = Full
  Linked false = Safe

  pub try_reflink-Ends :
      (s : Disk)
      → Safe s
      → Ends Linked Error
          (try_reflink blake3 block_size detect_size session_dir machine src dst opts s)
  unfolding try_reflink Linked Ends
  try_reflink-Ends s h =
      Ends-if (not opts.try_reflink || is_always opts.sparse_mode) _ _ Linked Error (λ _. h)
        (λ tried.
          Ends-if (machine.reflinks (is_some (s.files target))) _ _ Linked Error
            (λ _. put-Full src.content s h refl)
            (λ refuses.
              Ends-if opts.fail_on_error _ _ Linked Error
                (λ fatal.
                  before
                    (λ u.
                      let clones = u.clones (forced _ _ _ tried fatal) (is_some (s.files target)) in
                      cc)
                    h)
                (λ _. h)))

  unfoldable pub Ranged : Option (Unit {0}) → Disk → Type 0
  Ranged none = Safe
  Ranged (some done) = Full

  keep_range-Ends :
      (ended : RangeEnd) (s : Disk)
      → Safe s
      → ((f : Bytes) → ended ≡ (some (ok tt), f) → f ≡ src.content)
      → ((e : BcmrError) (f : Bytes) → ended ≡ (some (err e), f) → ¬ IsUnhindered machine opts)
      → Ends Ranged Error (
          passed_on blake3 block_size detect_size session_dir machine src dst opts
            (keep_range blake3 block_size detect_size session_dir machine src dst opts ended s))
  unfolding keep_range passed_on Ranged Ends
  keep_range-Ends (none, f) s h whole fails = removed-Safe _ (put-Safe (some f) s h)
  keep_range-Ends (some (ok done), f) s h whole fails = put-Full f s h (whole f refl)
  keep_range-Ends (some (err e), f) s h whole fails =
      before (fails e f refl) (put-Safe (some f) s h)

  opened-Ends :
      (b : Bool) (ended : RangeEnd) (s : Disk)
      → Safe s
      → ((f : Bytes) → ended ≡ (some (ok tt), f) → f ≡ src.content)
      → ((e : BcmrError) (f : Bytes) → ended ≡ (some (err e), f) → ¬ IsUnhindered machine opts)
      → Ends Ranged Error (
          passed_on blake3 block_size detect_size session_dir machine src dst opts (
            if b
            then keep_range blake3 block_size detect_size session_dir machine src dst opts ended s
            else (none, s)))
  unfolding passed_on Ranged Ends
  opened-Ends true ended s h whole fails = keep_range-Ends ended s h whole fails
  opened-Ends false ended s h whole fails = h

  pub ranged-Ends :
      (s : Disk)
      → Safe s
      → Ends Ranged Error (ranged blake3 block_size detect_size session_dir machine src dst opts s)
  unfolding ranged try_copy_file_range Ranged Ends take drop allocated
  ranged-Ends s h =
      let blank =
        blank_target blake3 block_size detect_size session_dir machine src dst opts progress
          steady in
      let (k, within, is) =
        blank_target-zeros blake3 block_size detect_size session_dir machine src dst opts progress
          steady in
      let short = ap (λ (c : Bytes). length c) is in
      Ends-if
        (use_atomic blake3 block_size detect_size session_dir machine src dst opts
          && is_never opts.sparse_mode)
        _ _ Ranged Error
        (λ _.
          opened-Ends machine.range_opens _ s h
            (λ f ended.
              range_loop-source machine src.content blank
                (omega (arith, short, length-zeros k, within)) steady.moves (length src.content + 1)
                0 (length src.content) f (omega arith) (omega arith) ended)
            (λ e f ended u.
              range_loop-fails machine src.content e f u.ranges (length src.content + 1) 0
                (length src.content) blank ended))
        (λ _. h)
