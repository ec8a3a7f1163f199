-- ===== src/FileCopy/Finished.antt =====
-- How each step of `copy_file` ends, where the copy goes through a temporary file.
use bcmr.Prelude.{◌&&◌, ℕ, ◌≡◌, ◌≢◌, refl, ◌∙◌, arith, inl, inr}
use bcmr.Prelude.{Bool, true, false, not, ◌||◌, Bool-cases, Option, none, some}
use bcmr.Bytes.Word.{Bytes}
use bcmr.Bytes.Equal.{bytes_eq}
use bcmr.Bytes.Digest.{Blake3}
use bcmr.Errors.Ends.{Ends, Ends-bind, Ends-if, Ends-choose}
use bcmr.Session.Store.{Files, put}
use bcmr.Session.Store.Crash.{put_self, put-ne}
use bcmr.Resume.{SourceFile}
use bcmr.Copy.Loop.{IsCalm}
use bcmr.FileCopy.Calls.{CopySettings, Disk, Machine, failed}
use bcmr.FileCopy.Names.{temp_path_for, temp_path_for-differs}
use bcmr.FileCopy.{is_always, check, temp, use_atomic, removed, verify_copy, compare_hashes, rename}
use bcmr.FileCopy.{src_hash, remove_session, finalize, reopen_and_finalize}

-- No call of the system fails that the copy may need, the clone included where one is forced and
-- tried, and the copy is not verified.
pub record IsUnhindered (machine : Machine) (opts : CopySettings) : Type 0 where
  pub has_metadata : machine.has_metadata ≡ true
  pub has_parent : machine.has_parent ≡ true
  pub opens_src : machine.opens_src ≡ true
  pub opens_dst : machine.opens_dst ≡ true
  pub ending : machine.ending 0 ≡ none
  pub copying : IsCalm machine.copying
  pub reopens : machine.reopens ≡ true
  pub syncs : machine.syncs ≡ true
  pub renames : machine.renames ≡ true
  pub preserves : machine.preserves ≡ true
  pub ranges : (at : ℕ) → machine.range at ≢ failed
  pub clones :
      (opts.fail_on_error && opts.try_reflink && not (is_always opts.sparse_mode)) ≡ true
      → (there : Bool) → machine.reflinks there ≡ true
  pub unverified : opts.verify ≡ false

-- Where the copy is when it ends.
module _ (blake3 : Blake3) (block_size detect_size : ℕ) (session_dir : Bytes) (machine : Machine)
    (src : SourceFile) (dst : Bytes) (opts : CopySettings) (first : Disk) (p : Bytes)
    (not_dst : p ≢ dst) (not_temp : p ≢ temp_path_for dst) where
  abbrev pub tmp : Bytes
  tmp = temp blake3 block_size detect_size session_dir machine src dst opts

  -- Nothing was done yet.
  pub record Started (st : Disk) : Type 0 where
    pub other_file : st.files p ≡ first.files p
    pub target : st.files dst ≡ first.files dst
    pub temporary : st.files tmp ≡ first.files tmp
    pub guard : st.guard ≡ none

  -- The temporary file is guarded, and the destination is as it was.
  pub record Guarded (st : Disk) : Type 0 where
    pub other_file : st.files p ≡ first.files p
    pub target : st.files dst ≡ first.files dst
    pub guard : st.guard ≡ some tmp

  -- The temporary file has the content of the source.
  abbrev pub Ready : Disk → Type 0
  Ready st = Guarded st × (st.files tmp ≡ some src.content)

  -- The temporary file has been renamed, and `content` says what the destination is since then.
  pub record Renamed (content : Option Bytes) (st : Disk) : Type 0 where
    pub other_file : st.files p ≡ first.files p
    pub target : st.files dst ≡ content
    pub temporary : st.files tmp ≡ none
    pub guard : st.guard ≡ none

  -- A copy that fails was hindered.
  abbrev pub Hindered : Type 0
  Hindered = ¬ IsUnhindered machine opts

  pub data Failed (st : Disk) : Type 0 where
    at_start : Hindered → Started st → Failed st
    before : Hindered → Guarded st → Failed st
    behind : Hindered → Renamed (some src.content) st → Failed st
    mismatched : opts.verify ≡ true → Renamed none st → Failed st

  pub check-Ends :
      (b : Bool) (s : Disk) (P : Disk → Type 0)
      → P s
      → (b ≡ false → Failed s)
      → Ends (λ _ t. P t) Failed (check b s)
  unfolding check Ends
  check-Ends true s P h e = h
  check-Ends false s P h e = e refl

  pub removed-other :
      (path q : Bytes) (files : Files)
      → q ≢ path
      → removed blake3 block_size detect_size session_dir machine src dst opts path files q
        ≡ files q
  unfolding removed
  removed-other path q files d = elim (Bool-cases (machine.sticks path)) [
    | inl stuck ↦ rw stuck refl
    | inr free ↦ rw free (put-ne path q none files d)
  ]

  verifying : opts.verify ≡ true → Hindered
  verifying e u = absurd (cc (u.unverified))

  compare_hashes-Ends :
      (a b : Option Bytes) (s : Disk)
      → opts.verify ≡ true
      → Renamed (some src.content) s
      → Ends
          (λ _ t. Renamed (some src.content) t)
          Failed
          (compare_hashes blake3 block_size detect_size session_dir machine src dst opts a b s)
  unfolding compare_hashes Ends removed
  compare_hashes-Ends none b s verify h = behind (verifying verify) h
  compare_hashes-Ends (some a) none s verify h = behind (verifying verify) h
  compare_hashes-Ends (some a) (some b) s verify h = elim (Bool-cases (bytes_eq a b)) [
    | inl same ↦ rw same h
    | inr differs ↦ elim (Bool-cases (machine.sticks dst)) [
      | inl stuck ↦ rw (differs, stuck) (behind (verifying verify) h)
      | inr free ↦
          rw (differs, free)
            (mismatched verify (record {
              other_file = put-ne dst p none s.files not_dst ∙ h.other_file;
              target = put_self dst none s.files;
              temporary = put-ne dst tmp none s.files (temp_path_for-differs dst) ∙ h.temporary;
              guard = h.guard;
            }))
    ]
  ]

  rename-Ends :
      (s : Disk)
      → Ready s
      → Ends
          (λ _ t. Renamed (some src.content) t)
          Failed
          (rename blake3 block_size detect_size session_dir machine src dst opts s)
  unfolding rename Ends
  rename-Ends s (h, full) =
      let files = put tmp none s.files in
      Ends-if machine.renames _ _ (λ _ t. Renamed (some src.content) t) Failed
        (λ fine. record {
          other_file =
              put-ne dst p (s.files tmp) files not_dst
              ∙ put-ne tmp p none s.files not_temp
              ∙ h.other_file;
          target = put_self dst (s.files tmp) files ∙ full;
          temporary =
              put-ne dst tmp (s.files tmp) files (temp_path_for-differs dst)
              ∙ put_self tmp none s.files;
          guard = refl;
        })
        (λ fails. before (λ u. cc) h)

  unsynced : IsUnhindered machine opts → (not opts.sync || machine.syncs) ≢ false
  unsynced u e = ground (arith, u.syncs, e)

  unkept : IsUnhindered machine opts → (not opts.preserve || machine.preserves) ≢ false
  unkept u e = ground (arith, u.preserves, e)

  module _
      (atomic : use_atomic blake3 block_size detect_size session_dir machine src dst opts
        ≡ true) where
    pub finalize-Ends :
        (inline : Option Bytes) (s : Disk)
        → Ready s
        → Ends
            (λ _ t. Renamed (some src.content) t)
            Failed
            (finalize blake3 block_size detect_size session_dir machine src dst opts inline s)
    unfolding finalize verify_copy remove_session Ends
    finalize-Ends inline s h =
        let Done : Unit {0} → Disk → Type 0 = λ _ t. Renamed (some src.content) t in
        Ends-bind _ _ (λ _ t. Ready t) Done Failed s
          (check-Ends (not opts.sync || machine.syncs) s Ready h
            (λ e. before (λ u. unsynced u e) h.0))
          (λ _ t ht. Ends-bind _ _ Done Done Failed t (rw atomic (rename-Ends t ht)) (λ _ u hu.
            Ends-bind _ _ Done Done Failed u
              (check-Ends (not opts.preserve || machine.preserves) u (Renamed (some src.content)) hu
                (λ e. behind (λ u'. unkept u' e) hu))
              (λ _ v hv.
                Ends-bind _ _ Done Done Failed v
                  (Ends-choose opts.verify _ _ v Done Failed
                    (λ wanted.
                      compare_hashes-Ends
                        (src_hash blake3 block_size detect_size session_dir machine src dst opts
                          inline)
                        _ v wanted hv)
                    (λ _. hv))
                  (λ _ w hw. record {
                    other_file = hw.other_file;
                    target = hw.target;
                    temporary = hw.temporary;
                    guard = hw.guard;
                  }))))

    pub reopen_and_finalize-Ends :
        (s : Disk)
        → Ready s
        → Ends
            (λ _ t. Renamed (some src.content) t)
            Failed
            (reopen_and_finalize blake3 block_size detect_size session_dir machine src dst opts s)
    unfolding reopen_and_finalize
    reopen_and_finalize-Ends s h =
        Ends-bind _ _ (λ _ t. Ready t) (λ _ t. Renamed (some src.content) t) Failed s
          (check-Ends machine.reopens s Ready h (λ e. before (λ u. cc) h.0))
          (λ _ t ht. finalize-Ends none t ht)
