-- ===== src/FileCopy/Verified.antt =====
-- What `--verify` promises of a copy, with or without a temporary file, whatever happens to the
-- source or to the calls meanwhile.
use bcmr.Prelude.{ℕ, ◌≡◌, refl, sym, ap, ◌∙◌, ◌⊎◌, inl, inr}
use bcmr.Prelude.{Bool, true, false, not, ◌&&◌, ◌||◌, if◌then◌else◌, Bool-cases, Option, none, some}
use bcmr.Bytes.Word.{Bytes}
use bcmr.Bytes.Digest.{Blake3}
use bcmr.Errors.{Result, ok, err}
use bcmr.Errors.Ends.{Ends, Ends-bind, Ends-if, Ends-choose}
use bcmr.Resume.{SourceFile}
use bcmr.FileCopy.Calls.{CopySettings, Disk, Machine}
use bcmr.FileCopy.Range.{RangeEnd}
use bcmr.FileCopy.{is_some, is_never, is_always, use_atomic, write_target}
use bcmr.FileCopy.{prepare, try_reflink, keep_range, try_copy_file_range, passed_on, ranged}
use bcmr.FileCopy.{resolved, copy_through, after_range}
use bcmr.FileCopy.{after_reflink, guarded, drop_guard, copy_file}
use bcmr.FileCopy.Compared
use bcmr.FileCopy.Concluded

first_of_two : (a b : Bool) → (a && b) ≡ true → a ≡ true
first_of_two true b e = refl
first_of_two false b e = e

module _ (blake3 : Blake3) (block_size detect_size : ℕ) (session_dir : Bytes) (machine : Machine)
    (src : SourceFile) (dst : Bytes) (opts : CopySettings) where
  -- The destination has the hash of the source, or of what was read of it.
  abbrev pub Verified : Disk → Type 0
  Verified = Compared.Verified blake3 block_size detect_size session_dir machine src dst opts

  -- There is no temporary file, and `resolve` has taken the destination for complete.
  abbrev pub Skipped : Disk → Type 0
  Skipped = Compared.Skipped blake3 block_size detect_size session_dir machine src dst opts

  abbrev Any : Disk → Type 0
  Any = Compared.Any blake3 block_size detect_size session_dir machine src dst opts

  abbrev Idle : Disk → Type 0
  Idle = Compared.Idle blake3 block_size detect_size session_dir machine src dst opts

  abbrev Sound : Disk → Type 0
  Sound = Compared.Sound blake3 block_size detect_size session_dir machine src dst opts

  module _ (verify : opts.verify ≡ true) (first : Disk) where
    abbrev Passed : Unit {0} → Disk → Type 0
    Passed =
        Concluded.Passed blake3 block_size detect_size session_dir machine src dst opts verify first

    -- Without a temporary file, nothing was done yet.
    abbrev Untouched : Disk → Type 0
    Untouched =
        Concluded.Untouched blake3 block_size detect_size session_dir machine src dst opts verify
          first

    copy_through-Passed :
        (s : Disk)
        → Untouched s
        → Ends Passed Any
            (copy_through blake3 block_size detect_size session_dir machine src dst opts s)
    unfolding copy_through Ends
    copy_through-Passed s h =
        Ends-bind _ _ _ Passed Any s
          (Concluded.resolved-Idle blake3 block_size detect_size session_dir machine src dst opts
            verify first s
            (Concluded.Untouched-Idle blake3 block_size detect_size session_dir machine src dst opts
              verify first s h))
          (λ state t (ran, ht).
            Ends-choose state.is_complete _ _ t Passed Any
              (λ complete.
                elim (Bool-cases
                  (use_atomic blake3 block_size detect_size session_dir machine src dst opts)) [
                    | inl atomic ↦ absurd (
                        Concluded.not_complete blake3 block_size detect_size session_dir machine src
                          dst opts verify first s t state ran complete atomic)
                    | inr plain ↦ inr (
                      plain,
                      t,
                      state,
                      ap
                            (λ (d : Disk).
                              resolved blake3 block_size detect_size session_dir machine src dst
                                opts d)
                            (sym (h plain))
                          ∙ ran,
                      complete,
                    )
                  ])
              (λ goes_on.
                Concluded.copy_from-Passed blake3 block_size detect_size session_dir machine src dst
                  opts verify first state t ht))

    -- Without a result of `copy_file_range` nothing was done yet; without a clone neither.
    unfoldable Known : Option (Unit {0}) → Disk → Type 0
    Known none = Untouched
    Known (some done) = Idle

    unfoldable Linked : Bool → Disk → Type 0
    Linked true = Idle
    Linked false = Untouched

    after_range-Passed :
        (o : Option (Unit {0})) (s : Disk)
        → Known o s
        → Ends Passed Any
            (after_range blake3 block_size detect_size session_dir machine src dst opts o s)
    unfolding after_range Known
    after_range-Passed (some done) s h =
        Concluded.reopen_and_finalize-Passed blake3 block_size detect_size session_dir machine src
          dst opts verify first s h
    after_range-Passed none s h = copy_through-Passed s h

    -- With a temporary file, both hold of any state.
    module _
        (atomic : use_atomic blake3 block_size detect_size session_dir machine src dst opts
          ≡ true) where
      keep_range-Known :
          (ended : RangeEnd) (s : Disk)
          → Ends Known Any (
              passed_on blake3 block_size detect_size session_dir machine src dst opts
                (keep_range blake3 block_size detect_size session_dir machine src dst opts ended s))
      unfolding keep_range passed_on Ends Known
      keep_range-Known (none, f) s = λ plain. absurd (cc atomic)
      keep_range-Known (some (ok done), f) s = λ plain. absurd (cc atomic)
      keep_range-Known (some (err e), f) s = tt

      opened-Known :
          (b : Bool) (ended : RangeEnd) (s : Disk)
          → Ends Known Any (
              passed_on blake3 block_size detect_size session_dir machine src dst opts (
                if b
                then keep_range blake3 block_size detect_size session_dir machine src dst opts ended
                    s
                else (none, s)))
      unfolding passed_on Ends Known
      opened-Known true ended s = keep_range-Known ended s
      opened-Known false ended s = λ plain. absurd (cc atomic)

    ranged-Known :
        (s : Disk)
        → Untouched s
        → Ends Known Any (ranged blake3 block_size detect_size session_dir machine src dst opts s)
    unfolding ranged try_copy_file_range Ends Known
    ranged-Known s h =
        Ends-if
          (use_atomic blake3 block_size detect_size session_dir machine src dst opts
            && is_never opts.sparse_mode)
          _ _ Known Any (λ all. opened-Known (first_of_two _ _ all) machine.range_opens _ s)
          (λ _. h)

    after_reflink-Passed :
        (b : Bool) (s : Disk)
        → Linked b s
        → Ends Passed Any
            (after_reflink blake3 block_size detect_size session_dir machine src dst opts b s)
    unfolding after_reflink Linked
    after_reflink-Passed true s h =
        Concluded.reopen_and_finalize-Passed blake3 block_size detect_size session_dir machine src
          dst opts verify first s h
    after_reflink-Passed false s h =
        Ends-bind _ _ Known Passed Any s (ranged-Known s h) (λ o t ht. after_range-Passed o t ht)

    try_reflink-Linked :
        (s : Disk)
        → Untouched s
        → Ends Linked Any
            (try_reflink blake3 block_size detect_size session_dir machine src dst opts s)
    unfolding try_reflink Linked Ends
    try_reflink-Linked s h =
        Ends-if (not opts.try_reflink || is_always opts.sparse_mode) _ _ Linked Any (λ _. h)
          (λ _.
            Ends-if
              (machine.reflinks (
                is_some (
                  s.files
                    (write_target blake3 block_size detect_size session_dir machine src dst opts))))
              _ _ Linked Any
              (λ _.
                Concluded.Untouched-Idle blake3 block_size detect_size session_dir machine src dst
                  opts verify first s h)
              (λ _. Ends-if opts.fail_on_error _ _ Linked Any (λ _. tt) (λ _. h)))

    prepare-Untouched :
        (s : Disk)
        → s ≡ record first { guard = none }
        → Ends
            (λ _ t. Untouched t)
            Any
            (prepare blake3 block_size detect_size session_dir machine src dst opts s)
    unfolding prepare Ends
    prepare-Untouched s h =
        Ends-if (use_atomic blake3 block_size detect_size session_dir machine src dst opts) _ _
          (λ _ t. Untouched t) Any (λ atomic plain. absurd (cc atomic)) (λ _ plain. h)

    guarded-Passed : Ends Passed Any (
        guarded blake3 block_size detect_size session_dir machine src dst opts
          (record first { guard = none }))
    unfolding guarded
    guarded-Passed =
        let Begun : Disk → Type 0 = λ s. s ≡ record first { guard = none } in
        Ends-bind _ _ (λ _ t. Begun t) Passed Any _
          (Compared.check-kept blake3 block_size detect_size session_dir machine src dst opts
            machine.has_metadata Begun _ refl)
          (λ _ t ht.
            Ends-bind _ _ (λ _ u. Begun u) Passed Any t
              (Compared.check-kept blake3 block_size detect_size session_dir machine src dst opts
                machine.has_parent Begun t ht)
              (λ _ u hu.
                Ends-bind _ _ (λ _ v. Untouched v) Passed Any u (prepare-Untouched u hu)
                  (λ _ v hv.
                    Ends-bind _ _ Linked Passed Any v (try_reflink-Linked v hv)
                      (λ b w hw. after_reflink-Passed b w hw))))

    dropped-Passed :
        (q : Result (Unit {0}) × Disk)
        → Ends Passed Any q
        → q.0 ≡ ok tt
        → Verified (
            drop_guard blake3 block_size detect_size session_dir machine src dst opts q.1.guard q.1)
          ⊎ Skipped first
    unfolding Ends drop_guard
    dropped-Passed (ok done, t) (inl (unguarded, verified)) e = rw unguarded (inl verified)
    dropped-Passed (ok done, t) (inr skipped) e = inr skipped
    dropped-Passed (err x, t) h e = cc

    -- A copy with `verify` and without a test mode that succeeds leaves a destination that has the
    -- hash of the source, or of what was read of it from its beginning, whatever the calls of the
    -- system do meanwhile, unless there is no temporary file and `resolve` has taken the
    -- destination that was there before the copy for complete.
    pub copy_file-Verified :
        (copy_file blake3 block_size detect_size session_dir machine src dst opts first).0 ≡ ok tt
        → Verified
            (copy_file blake3 block_size detect_size session_dir machine src dst opts first).1
          ⊎ Skipped first
    unfolding copy_file
    copy_file-Verified =
        dropped-Passed
          (guarded blake3 block_size detect_size session_dir machine src dst opts
            (record first { guard = none }))
          guarded-Passed
