-- ===== src/FileCopy/Concluded.antt =====
-- How `finalize` ends with `--verify`, and what leads to it.
use bcmr.Prelude.{ℕ, ◌≡◌, ◌≢◌, refl, ap, ◌⊎◌, inl}
use bcmr.Prelude.{true, false, not, ◌||◌, Option, none, some}
use bcmr.Prelude.{concat}
use bcmr.Bytes.Word.{Bytes}
use bcmr.Bytes.Digest.{Blake3}
use bcmr.Errors.{Result, ok, err}
use bcmr.Errors.Ends.{Ends, Ends-bind, Ends-if, Ends-choose}
use bcmr.Session.Store.{Files}
use bcmr.FileCopy.Fresh.{resolved-fresh}
use bcmr.Resume.{fresh, ResumeState, SourceFile}
use bcmr.Copy.{CopyState}
use bcmr.Copy.Hashed.{streaming_copy-hash}
use bcmr.FileCopy.Calls.{CopySettings, Disk, Machine}
use bcmr.FileCopy.{use_atomic}
use bcmr.FileCopy.{verify_copy, rename, remove_session, finalize}
use bcmr.FileCopy.{reopen_and_finalize, resolved, stream, copy_from}
use bcmr.FileCopy.Compared

module _ (blake3 : Blake3) (block_size detect_size : ℕ) (session_dir : Bytes) (machine : Machine)
    (src : SourceFile) (dst : Bytes) (opts : CopySettings) where
  -- The destination has the hash of the source, or of what was read of it.
  abbrev Verified : Disk → Type 0
  Verified = Compared.Verified blake3 block_size detect_size session_dir machine src dst opts

  -- There is no temporary file, and `resolve` has taken the destination for complete.
  abbrev Skipped : Disk → Type 0
  Skipped = Compared.Skipped blake3 block_size detect_size session_dir machine src dst opts

  abbrev Any : Disk → Type 0
  Any = Compared.Any blake3 block_size detect_size session_dir machine src dst opts

  abbrev Idle : Disk → Type 0
  Idle = Compared.Idle blake3 block_size detect_size session_dir machine src dst opts

  abbrev Open : Disk → Type 0
  Open = Compared.Open blake3 block_size detect_size session_dir machine src dst opts

  abbrev Sound : Disk → Type 0
  Sound = Compared.Sound blake3 block_size detect_size session_dir machine src dst opts

  abbrev Read : Option Bytes → Type 0
  Read = Compared.Read blake3 block_size detect_size session_dir machine src dst opts

  module _ (verify : opts.verify ≡ true) (first : Disk) where
    abbrev pub Passed : Unit {0} → Disk → Type 0
    Passed a t = Sound t ⊎ Skipped first

    -- Without a temporary file, nothing was done yet.
    abbrev pub Untouched : Disk → Type 0
    Untouched s =
        use_atomic blake3 block_size detect_size session_dir machine src dst opts ≡ false
        → s ≡ record first { guard = none }

    pub Untouched-Idle : (s : Disk) → Untouched s → Idle s
    Untouched-Idle s h plain = ap (λ (d : Disk). d.guard) (h plain)

    finalize-Passed :
        (inline : Option Bytes) (s : Disk)
        → Read inline
        → Idle s
        → Ends Passed Any
            (finalize blake3 block_size detect_size session_dir machine src dst opts inline s)
    unfolding finalize verify_copy rename remove_session Ends
    finalize-Passed inline s read idle =
        let atomic = use_atomic blake3 block_size detect_size session_dir machine src dst opts in
        Ends-bind _ _ (λ _ t. Idle t) Passed Any s
          (Compared.check-kept blake3 block_size detect_size session_dir machine src dst opts
            (not opts.sync || machine.syncs) Idle s idle)
          (λ _ t ht.
            Ends-bind _ _ (λ _ u. Open u) Passed Any t
              (Ends-choose atomic _ _ t (λ _ u. Open u) Any
                (λ _. Ends-if machine.renames _ _ (λ _ u. Open u) Any (λ _. refl) (λ _. tt))
                (λ plain. ht plain))
              (λ _ u hu.
                Ends-bind _ _ (λ _ v. Open v) Passed Any u
                  (Compared.check-kept blake3 block_size detect_size session_dir machine src dst
                    opts (not opts.preserve || machine.preserves) Open u hu)
                  (λ _ v hv.
                    Ends-bind _ _ (λ _ w. Sound w) Passed Any v
                      (Ends-choose opts.verify _ _ v (λ _ w. Sound w) Any
                        (λ _.
                          Compared.compare_hashes-Sound blake3 block_size detect_size session_dir
                            machine src dst opts inline _ _ v read hv refl refl)
                        (λ off. absurd (cc verify)))
                      (λ _ w hw. inl hw))))

    unread : Read none
    unread h e = cc

    pub reopen_and_finalize-Passed :
        (s : Disk)
        → Idle s
        → Ends Passed Any
            (reopen_and_finalize blake3 block_size detect_size session_dir machine src dst opts s)
    unfolding reopen_and_finalize
    reopen_and_finalize-Passed s idle =
        Ends-bind _ _ (λ _ t. Idle t) Passed Any s
          (Compared.check-kept blake3 block_size detect_size session_dir machine src dst opts
            machine.reopens Idle s idle)
          (λ _ t ht. finalize-Passed none t unread ht)

    keep_stream-Idle :
        (start : ℕ) (q : Result (Option Bytes) × CopyState) (s : Disk) (files sessions : Files)
        → Idle s
        → ((h : Bytes) (t : CopyState)
            → q ≡ (ok (some h), t)
            → (start ≡ 0) × (h ≡ blake3.hash (concat (machine.parts start))))
        → Ends
            (λ hash t. Read hash × Idle t)
            Any
            (q.0, record s { files = files; sessions = sessions })
    unfolding Ends
    keep_stream-Idle start (err e, t) s files sessions idle found = tt
    keep_stream-Idle start (ok none, t) s files sessions idle found = (unread, idle)
    keep_stream-Idle start (ok (some h), t) s files sessions idle found =
        let (zeroth, is) = found h t refl in (λ x e. (let from = rw zeroth at is in cc), idle)

    stream-Idle :
        (state : ResumeState) (s : Disk)
        → Idle s
        → Ends
            (λ hash t. Read hash × Idle t)
            Any
            (stream blake3 block_size detect_size session_dir machine src dst opts state s)
    unfolding stream
    stream-Idle state s idle = keep_stream-Idle state.start_offset _ s _ _ idle (λ h t e.
        streaming_copy-hash blake3 block_size detect_size machine.copying opts.sparse_mode
          state.start_offset _ _ (machine.parts state.start_offset)
          (machine.ending state.start_offset) _ h t e)

    pub copy_from-Passed :
        (state : ResumeState) (s : Disk)
        → Idle s
        → Ends Passed Any
            (copy_from blake3 block_size detect_size session_dir machine src dst opts state s)
    unfolding copy_from
    copy_from-Passed state s idle =
        Ends-bind _ _ (λ _ t. Idle t) Passed Any s
          (Compared.check-kept blake3 block_size detect_size session_dir machine src dst opts _ Idle
            s idle)
          (λ _ t ht.
            Ends-bind _ _ (λ hash u. Read hash × Idle u) Passed Any t (stream-Idle state t ht)
              (λ hash u hu. finalize-Passed hash u hu.0 hu.1))

    found_state :
        (r : Result ResumeState) (sessions : Files) (s : Disk)
        → resolved blake3 block_size detect_size session_dir machine src dst opts s
          ≡ (r, record s { sessions = sessions })
        → Idle s
        → Ends
            (λ state t.
              (resolved blake3 block_size detect_size session_dir machine src dst opts s
                ≡ (ok state, t))
              × Idle t)
            Any
            (r, record s { sessions = sessions })
    unfolding Ends
    found_state (ok state) sessions s e idle = (e, idle)
    found_state (err x) sessions s e idle = tt

    pub not_complete :
        (s t : Disk) (state : ResumeState)
        → resolved blake3 block_size detect_size session_dir machine src dst opts s ≡ (ok state, t)
        → state.is_complete ≡ true
        → use_atomic blake3 block_size detect_size session_dir machine src dst opts ≢ true
    unfolding fresh
    not_complete s t state ran complete atomic =
        let is =
          resolved-fresh blake3 block_size detect_size session_dir machine src dst opts atomic s in
        let same : state ≡ fresh none = cc in
        let incomplete = ap (λ (x : ResumeState). x.is_complete) same in cc

    -- What `resolve` found, and that it leaves what is guarded.
    pub resolved-Idle :
        (s : Disk)
        → Idle s
        → Ends
            (λ state t.
              (resolved blake3 block_size detect_size session_dir machine src dst opts s
                ≡ (ok state, t))
              × Idle t)
            Any
            (resolved blake3 block_size detect_size session_dir machine src dst opts s)
    unfolding resolved
    resolved-Idle s idle = found_state _ _ s refl idle
