-- ===== src/FileCopy/Steps.antt =====
-- The steps of a copy through a temporary file, up to its end.
use bcmr.Prelude.{ℕ, ◌^◌, ◌≡◌, ◌≢◌, ◌≤◌, refl, sym, ◌∙◌, arith}
use bcmr.Prelude.{Bool, true, false, ◌&&◌, ltb, Option, none, some}
use bcmr.Bytes.Word.{Bytes}
use bcmr.Bytes.Digest.{Blake3}
use bcmr.Errors.{BcmrError, Result, ok, err}
use bcmr.Errors.Ends.{Ends, Ends-bind}
use bcmr.Session.Store.{Files, put}
use bcmr.Resume.{ResumeState, SourceFile, fresh}
use bcmr.Resume.Preallocated.{opened}
use bcmr.Copy.{CopyState}
use bcmr.FileCopy.Calls.{CopySettings, Disk, Machine}
use bcmr.FileCopy.Names.{temp_path_for}
use bcmr.FileCopy.{use_atomic, prepare}
use bcmr.FileCopy.{resolved, stream, copy_from}
use bcmr.FileCopy.{copy_through, after_range, after_reflink, guarded}
use bcmr.FileCopy.Names.{temp_path_for-differs}
use bcmr.FileCopy.Finished.{Started, at_start, before}
use bcmr.FileCopy.Finished.{
  IsUnhindered, check-Ends, removed-other, finalize-Ends, reopen_and_finalize-Ends,
}
use bcmr.FileCopy.Streamed.{IsSteady, streamed, stream_fails}
use bcmr.FileCopy.Targets
use bcmr.FileCopy.Fresh.{resolved-fresh}

module _ (blake3 : Blake3) (block_size detect_size : ℕ) (session_dir : Bytes) (machine : Machine)
    (src : SourceFile) (dst : Bytes) (opts : CopySettings) (progress : 1 ≤ detect_size)
    (steady : IsSteady machine src.content)
    (atomic : use_atomic blake3 block_size detect_size session_dir machine src dst opts ≡ true)
    (first : Disk) (p : Bytes) (not_dst : p ≢ dst) (not_temp : p ≢ temp_path_for dst) where
  abbrev Safe : Disk → Type 0
  Safe =
      Targets.Safe blake3 block_size detect_size session_dir machine src dst opts progress steady
        atomic first p not_dst not_temp

  abbrev Full : Disk → Type 0
  Full =
      Targets.Full blake3 block_size detect_size session_dir machine src dst opts progress steady
        atomic first p not_dst not_temp

  abbrev pub Done : Disk → Type 0
  Done =
      Targets.Done blake3 block_size detect_size session_dir machine src dst opts progress steady
        atomic first p not_dst not_temp

  abbrev pub Error : Disk → Type 0
  Error =
      Targets.Error blake3 block_size detect_size session_dir machine src dst opts progress steady
        atomic first p not_dst not_temp

  abbrev target : Bytes
  target =
      Targets.target blake3 block_size detect_size session_dir machine src dst opts progress steady
        atomic first p not_dst not_temp

  abbrev Linked : Bool → Disk → Type 0
  Linked =
      Targets.Linked blake3 block_size detect_size session_dir machine src dst opts progress steady
        atomic first p not_dst not_temp

  abbrev Ranged : Option (Unit {0}) → Disk → Type 0
  Ranged =
      Targets.Ranged blake3 block_size detect_size session_dir machine src dst opts progress steady
        atomic first p not_dst not_temp

  -- Nothing is resumed.
  Fresh : ResumeState → Disk → Type 0
  Fresh state t = (state ≡ fresh none) × Safe t

  resolved-Ends :
      (s : Disk)
      → Safe s
      → Ends Fresh Error (resolved blake3 block_size detect_size session_dir machine src dst opts s)
  unfolding Fresh Ends
  resolved-Ends s h =
      rw (resolved-fresh blake3 block_size detect_size session_dir machine src dst opts atomic s)
        (refl, h)

  moved_on : (s : Disk) (after : Files) → Safe s → Safe (record s { sessions = after })
  moved_on s after h = record { other_file = h.other_file; target = h.target; guard = h.guard }

  keep_stream-Ends :
      (q : Result (Option Bytes) × CopyState) (s : Disk) (after : Files)
      → Safe s
      → ((h : Option Bytes) (t : CopyState) → q ≡ (ok h, t) → t.file ≡ src.content)
      → ((e : BcmrError) (t : CopyState) → q ≡ (err e, t) → ¬ IsUnhindered machine opts)
      → Ends
          (λ _ t. Full t)
          Error
          (q.0, record s { files = put target (some q.1.file) s.files; sessions = after })
  unfolding Ends
  keep_stream-Ends (ok a, t) s after h whole fails =
      Targets.put-Full blake3 block_size detect_size session_dir machine src dst opts progress
        steady atomic first p not_dst not_temp t.file (record s { sessions = after })
        (moved_on s after h) (whole a t refl)
  keep_stream-Ends (err e, t) s after h whole fails = before (fails e t refl) (
      Targets.put-Safe blake3 block_size detect_size session_dir machine src dst opts progress
        steady atomic first p not_dst not_temp (some t.file) (record s { sessions = after })
        (moved_on s after h))

  stream-Ends :
      (s : Disk)
      → Safe s
      → Ends
          (λ _ t. Full t)
          Error
          (stream blake3 block_size detect_size session_dir machine src dst opts (fresh none) s)
  unfolding stream fresh opened
  stream-Ends s h =
      keep_stream-Ends _ s _ h
        (λ a t e.
          streamed blake3 block_size detect_size session_dir machine src dst opts progress steady _
            _ _ a t e)
        (λ x t e u.
          stream_fails blake3 block_size detect_size session_dir machine src dst opts progress
            steady _ _ _ x t u.copying u.ending e)

  copy_from-Ends :
      (s : Disk)
      → Safe s
      → Ends
          (λ _ t. Done t)
          Error
          (copy_from blake3 block_size detect_size session_dir machine src dst opts (fresh none) s)
  unfolding copy_from fresh
  copy_from-Ends s h =
      Ends-bind _ _ (λ _ t. Safe t) (λ _ t. Done t) Error s
        (check-Ends blake3 block_size detect_size session_dir machine src dst opts first p not_dst
          not_temp (machine.opens_src && (machine.opens_dst && ltb 0 (2 ^ 63))) s Safe h
          (λ e. before (λ u. opened u e) h))
        (λ _ t ht.
          Ends-bind _ _ (λ _ u. Full u) (λ _ u. Done u) Error t (stream-Ends t ht)
            (λ hash u hu.
              finalize-Ends blake3 block_size detect_size session_dir machine src dst opts first p
                not_dst not_temp atomic hash u hu))
    where
      opened :
          IsUnhindered machine opts
          → (machine.opens_src && (machine.opens_dst && ltb 0 (2 ^ 63))) ≢ false
      opened u e = ground (arith, u.opens_src, u.opens_dst, e)

  after_range-Ends :
      (o : Option (Unit {0})) (s : Disk)
      → Ranged o s
      → Ends
          (λ _ t. Done t)
          Error
          (after_range blake3 block_size detect_size session_dir machine src dst opts o s)
  unfolding after_range copy_through Targets.Ranged Fresh fresh
  after_range-Ends (some done) s h =
      reopen_and_finalize-Ends blake3 block_size detect_size session_dir machine src dst opts first
        p not_dst not_temp atomic s h
  after_range-Ends none s h =
      Ends-bind _ _ Fresh (λ _ t. Done t) Error s (resolved-Ends s h)
        (λ state t (is, ht). rw is (copy_from-Ends t ht))

  after_reflink-Ends :
      (b : Bool) (s : Disk)
      → Linked b s
      → Ends
          (λ _ t. Done t)
          Error
          (after_reflink blake3 block_size detect_size session_dir machine src dst opts b s)
  unfolding after_reflink Targets.Linked
  after_reflink-Ends true s h =
      reopen_and_finalize-Ends blake3 block_size detect_size session_dir machine src dst opts first
        p not_dst not_temp atomic s h
  after_reflink-Ends false s h =
      Ends-bind _ _ Ranged (λ _ t. Done t) Error s
        (Targets.ranged-Ends blake3 block_size detect_size session_dir machine src dst opts progress
          steady atomic first p not_dst not_temp s h)
        (λ o t ht. after_range-Ends o t ht)

  prepared :
      (s : Disk)
      → Started blake3 block_size detect_size session_dir machine src dst opts first p not_dst
          not_temp s
      → Ends
          (λ _ t. Safe t)
          Error
          (prepare blake3 block_size detect_size session_dir machine src dst opts s)
  unfolding prepare Ends
  prepared s h = rw atomic (record {
    other_file =
        removed-other blake3 block_size detect_size session_dir machine src dst opts first p not_dst
          not_temp (temp_path_for dst) p s.files not_temp
        ∙ h.other_file;
    target =
        removed-other blake3 block_size detect_size session_dir machine src dst opts first p not_dst
          not_temp (temp_path_for dst) dst s.files (λ e. temp_path_for-differs dst (sym e))
        ∙ h.target;
    guard = refl;
  })

  pub guarded-Ends :
      (s : Disk)
      → Started blake3 block_size detect_size session_dir machine src dst opts first p not_dst
          not_temp s
      → Ends
          (λ _ t. Done t)
          Error
          (guarded blake3 block_size detect_size session_dir machine src dst opts s)
  unfolding guarded
  guarded-Ends s h =
      let Begun =
        Started blake3 block_size detect_size session_dir machine src dst opts first p not_dst
          not_temp in
      let checked =
        check-Ends blake3 block_size detect_size session_dir machine src dst opts first p not_dst
          not_temp in
      Ends-bind _ _ (λ _ t. Begun t) (λ _ t. Done t) Error s
        (checked machine.has_metadata s Begun h (λ e. at_start (λ u. cc) h))
        (λ _ t ht.
          Ends-bind _ _ (λ _ u. Begun u) (λ _ u. Done u) Error t
            (checked machine.has_parent t Begun ht (λ e. at_start (λ u. cc) ht))
            (λ _ u hu.
              Ends-bind _ _ (λ _ v. Safe v) (λ _ v. Done v) Error u (prepared u hu)
                (λ _ v hv.
                  Ends-bind _ _ Linked (λ _ w. Done w) Error v
                    (Targets.try_reflink-Ends blake3 block_size detect_size session_dir machine src
                      dst opts progress steady atomic first p not_dst not_temp v hv)
                    (λ b w hw. after_reflink-Ends b w hw))))
