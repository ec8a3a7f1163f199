-- ===== src/FileCopy/Atomic.antt =====
-- A copy through a temporary file: the destination is the old one or the whole new one.
use bcmr.Prelude.{Bool-cases, ℕ, ◌≡◌, ◌≢◌, ◌≤◌, refl, sym, ap, ◌∙◌, arith, ◌⊎◌, inl, inr}
use bcmr.Prelude.{true, none, some, [], ◌∷◌, ◌++◌}
use bcmr.Prelude.{length, length-append}
use bcmr.Bytes.Word.{Bytes}
use bcmr.Bytes.Digest.{Blake3}
use bcmr.Errors.{BcmrError, Result, ok, err}
use bcmr.Errors.Ends.{Ends}
use bcmr.Session.Store.Crash.{put_self, put-ne}
use bcmr.Resume.{SourceFile}
use bcmr.FileCopy.Calls.{CopySettings, Disk, Machine}
use bcmr.FileCopy.Names.{temp_path_for}
use bcmr.FileCopy.{use_atomic, removed}
use bcmr.FileCopy.{guarded, drop_guard, copy_file}
use bcmr.FileCopy.Names.{length-temp_path_for, temp_path_for-differs}
use bcmr.FileCopy.Finished.{at_start, before, behind}
use bcmr.FileCopy.Finished.{IsUnhindered, mismatched}
use bcmr.FileCopy.Streamed.{IsSteady}
use bcmr.FileCopy.Steps.{Done, Error, guarded-Ends}

module _ (blake3 : Blake3) (block_size detect_size : ℕ) (session_dir : Bytes) (machine : Machine)
    (src : SourceFile) (dst : Bytes) (opts : CopySettings) (progress : 1 ≤ detect_size)
    (steady : IsSteady machine src.content)
    (atomic : use_atomic blake3 block_size detect_size session_dir machine src dst opts ≡ true)
    (first : Disk) where
  -- The destination is a copy of the source.
  abbrev pub Copied : Result (Unit {0}) → Disk → Type 0
  Copied r t = (r ≡ ok tt) × (t.files dst ≡ some src.content) × (t.files (temp_path_for dst) ≡ none)

  -- A call that may be needed fails, or the copy is verified. The destination is as it was, or a
  -- copy of the source, or was removed because its hash differed; a temporary file is there only if
  -- it cannot be removed, or was there before.
  abbrev pub Broken : Result (Unit {0}) → Disk → Type 0
  Broken r t =
      ((e : BcmrError) × (r ≡ err e))
      × (¬ IsUnhindered machine opts)
      × ((t.files dst ≡ first.files dst)
          ⊎ (t.files dst ≡ some src.content)
          ⊎ ((opts.verify ≡ true) × (t.files dst ≡ none)))
      × ((machine.sticks (temp_path_for dst) ≡ true)
          ⊎ (t.files (temp_path_for dst) ≡ none)
          ⊎ (t.files (temp_path_for dst) ≡ first.files (temp_path_for dst)))

  abbrev dropped : Disk → Disk
  dropped t = drop_guard blake3 block_size detect_size session_dir machine src dst opts t.guard t

  module _ (p : Bytes) (not_dst : p ≢ dst) (not_temp : p ≢ temp_path_for dst) where
    abbrev Fails : Disk → Type 0
    Fails =
        Error blake3 block_size detect_size session_dir machine src dst opts progress steady atomic
          first p not_dst not_temp

    Failed-Broken :
        (e : BcmrError) (t : Disk)
        → Fails t
        → ((dropped t).files p ≡ first.files p) × Broken (err e) (dropped t)
    unfolding drop_guard removed
    Failed-Broken e t (at_start u h) =
        rw h.guard (h.other_file, ((e, refl), u, inl h.target, inr (inr h.temporary)))
    Failed-Broken e t (before u h) = elim (Bool-cases (machine.sticks (temp_path_for dst))) [
      | inl stuck ↦ rw (h.guard, stuck) (h.other_file, ((e, refl), u, inl h.target, inl refl))
      | inr free ↦
          rw (h.guard, free)
            (
              put-ne (temp_path_for dst) p none t.files not_temp ∙ h.other_file,
              (
                (e, refl),
                u,
                inl (
                    put-ne (temp_path_for dst) dst none t.files
                      (λ same. temp_path_for-differs dst (sym same))
                    ∙ h.target),
                inr (inl (put_self (temp_path_for dst) none t.files)),
              ),
            )
    ]
    Failed-Broken e t (behind u h) =
        rw h.guard (h.other_file, ((e, refl), u, inr (inl h.target), inr (inl h.temporary)))
    Failed-Broken e t (mismatched v h) = rw h.guard (
      h.other_file,
      ((e, refl), (λ u. absurd (cc u.unverified)), inr (inr (v, h.target)), inr (inl h.temporary)),
    )

    Ends-Copied :
        (q : Result (Unit {0}) × Disk)
        → Ends
            (λ _ t.
              Done blake3 block_size detect_size session_dir machine src dst opts progress steady
                atomic first p not_dst not_temp t)
            Fails
            q
        → ((dropped q.1).files p ≡ first.files p)
          × (Copied q.0 (dropped q.1) ⊎ Broken q.0 (dropped q.1))
    unfolding Ends drop_guard
    Ends-Copied (ok done, t) h = rw h.guard (h.other_file, inl (refl, h.target, h.temporary))
    Ends-Copied (err e, t) h = let (same, broken) = Failed-Broken e t h in (same, inr broken)

    pub copy_file-atomic :
        let (r, t) =
          copy_file blake3 block_size detect_size session_dir machine src dst opts first in
        (t.files p ≡ first.files p) × (Copied r t ⊎ Broken r t)
    unfolding copy_file
    copy_file-atomic =
        Ends-Copied
          (guarded blake3 block_size detect_size session_dir machine src dst opts
            (record first { guard = none }))
          (guarded-Ends blake3 block_size detect_size session_dir machine src dst opts progress
            steady atomic first p not_dst not_temp (record first { guard = none })
            (record { other_file = refl; target = refl; temporary = refl; guard = refl }))

  succeeds :
      (r : Result (Unit {0})) (t : Disk)
      → IsUnhindered machine opts
      → Copied r t ⊎ Broken r t
      → Copied r t
  succeeds r t u (inl copied) = copied
  succeeds r t u (inr (_, hindered, _, _)) = absurd (hindered u)

  -- If no call fails that it may need, the clone included where one is forced and tried, a copy
  -- without `resume`, `append`, `strict`, `verify` and a test mode, of a source that does not
  -- change, succeeds, whether it is made by cloning, by `copy_file_range` or by reading and
  -- writing; the destination then is equal to the source, and no temporary file is left.
  pub copy_file-copies :
      IsUnhindered machine opts
      → let (r, t) =
          copy_file blake3 block_size detect_size session_dir machine src dst opts first in
        (r ≡ ok tt) × (t.files dst ≡ some src.content) × (t.files (temp_path_for dst) ≡ none)
  copy_file-copies u =
      let longer = temp_path_for dst ++ (0 ∷ []) in
      let size = length-append (temp_path_for dst) (0 ∷ []) in
      let differs : (q : Bytes) → length q ≤ length (temp_path_for dst) → longer ≢ q =
        λ q short e. absurd (omega (arith, size, short, ap (λ (c : Bytes). length c) e)) in
      let (r, t) = copy_file blake3 block_size detect_size session_dir machine src dst opts first in
      succeeds r t u
        (copy_file-atomic longer (differs dst (omega (arith, length-temp_path_for dst)))
          (differs (temp_path_for dst) (omega arith))).1
