-- ===== src/Resume/Preallocated.antt =====
-- The destination of a copy that does not go through a temporary file, as
-- src/commands/copy/file_copy.rs opens it, preallocates it on Linux and writes to it, when the copy
-- is interrupted; and what `resolve` makes of it when the copy is run again.
use bcmr.Prelude.{ℕ, ◌+◌, ◌-◌, ◌≤◌, ◌≡◌, ◌⊎◌, refl, sym, ap, ◌∙◌, arith, Bool, true, false, ◌||◌}
use bcmr.Prelude.{ltb→le, ltb, ==_iff, if◌then◌else◌, Bool-cases, inl, inr, append_assoc}
use bcmr.Prelude.{
  Option, none, some, List, [], ◌∷◌, ◌++◌, length, length-append, take, drop, concat,
}
use bcmr.Prelude.{length-take_of_le, length-drop, take-append-drop, append-nil}
use mathlib.Core.Path.{subst}
use bcmr.Bytes.Word.{Bytes}
use bcmr.Bytes.Write.{zeros, length-zeros}
use bcmr.Bytes.Digest.{Blake3}
use bcmr.Errors.{BcmrError, Result, ok, err, bind_ok, bind_err}
use bcmr.Errors.Runs.{Runs}
use bcmr.Session.{Session, source_matches}
use bcmr.Session.Store.{Files, load, remove}
use bcmr.Copy.{never, CopyState, Faults, copy_loop, begin, streaming_copy}
use bcmr.Copy.Loop.{IsCalm, copy_part-Holds}
use bcmr.Copy.Written.{IsWritten, IsWritten-Same, place-IsWritten}
use bcmr.Resume.{Decision, already_complete, ResumeState, SourceFile, DestFile, World}
use bcmr.Resume.{resolve_append, resolve_with_session, lift, validate, load_and_validate_session}
use bcmr.Resume.{modified_secs, unwrap_or_zero, decide, conclude, callback, resolve}

-- `truncate(true)` where the copy starts at 0.
unfoldable pub opened : (start : ℕ) → Bytes → Bytes
opened start content = if ltb 0 start then content else []

-- `fallocate` with mode 0 makes a file longer where the range ends behind it, with zeros.
unfoldable pub preallocated : (start file_size : ℕ) → Bytes → Bytes
preallocated start file_size content =
    if ltb 0 (file_size - start) then content ++ zeros (file_size - length content) else content

length-preallocated :
    (start file_size : ℕ) (content : Bytes)
    → start ≤ length content
    → length content ≤ file_size
    → length (preallocated start file_size content) ≡ file_size
unfolding preallocated
length-preallocated start file_size content lo hi = elim (Bool-cases (ltb 0 (file_size - start))) [
  | inl left ↦ rw left (
      omega (
        arith,
        length-append content (zeros (file_size - length content)),
        length-zeros (file_size - length content),
      ))
  | inr full ↦ rw full (omega (arith, ltb→le _ _ full))
]

module _ (blake3 : Blake3) (block_size detect_size : ℕ) (faults : Faults) (calm : IsCalm faults)
    (file : Bytes) (e : BcmrError) where
  -- The loop that a failing read ends has written the parts before it.
  copy_loop-IsWritten :
      (parts : List Bytes) (content : Bytes) (s : CopyState)
      → IsWritten file content s
      → (t : CopyState) × (copy_loop blake3 block_size detect_size faults never (some e) parts s
          ≡ (err e, t))
        × IsWritten file (content ++ concat parts) t
  unfolding copy_loop concat Runs
  copy_loop-IsWritten [] content s h =
      (s, refl, subst (λ (c : Bytes). IsWritten file c s) (sym (append-nil content)) h)
  copy_loop-IsWritten (part ∷ parts) content s h =
      let (_, t, copied, ht) =
        copy_part-Holds blake3 block_size detect_size faults calm never
          (length content + length part) (IsWritten file) (IsWritten-Same file)
          (λ c p u _ k. place-IsWritten blake3 block_size detect_size faults calm file c p u k)
          content part s (omega arith) h in
      let (u, ran, hu) = copy_loop-IsWritten parts (content ++ part) t ht in
      (
        u,
        bind_ok _ _ copied ran,
        subst (λ (c : Bytes). IsWritten file c u) (append_assoc content part (concat parts)) hu,
      )

  -- A copy that is interrupted within the destination leaves it as long as it was.
  length-streaming_copy :
      (start : ℕ) (need : Bool) (own : Option Session) (parts : List Bytes)
      → start + length (concat parts) ≤ length file
      → length
          (streaming_copy blake3 block_size detect_size faults never start need own parts
            (some e)
            file).1.file
        ≡ length file
  unfolding streaming_copy begin
  length-streaming_copy start need own parts fits =
      let front = take start file in
      let size : length front ≡ start = length-take_of_le start file (omega arith) in
      let (t, ran, h) = copy_loop-IsWritten parts front _ (record {
        target = sym (take-append-drop start file) ∙ rw size refl;
        position = sym size;
        pending_hole = refl;
      }) in
      let content = front ++ concat parts in
      ap (λ (r : Result (Option Bytes) × CopyState). length r.1.file) (bind_err _ _ ran)
      ∙ ap (λ (c : Bytes). length c) h.target
      ∙ omega (
        arith,
        length-append content (drop (length content) file),
        length-drop (length content) file,
        length-append front (concat parts),
        size,
      )

module _ (blake3 : Blake3) (block_size : ℕ) (session_dir : Bytes) (now : ℕ) where
  validate-ok :
      (src : SourceFile) (dst : DestFile) (file_size : ℕ) (loaded : Option Session) (files : Files)
      → src.has_metadata ≡ true
      → (o : Option Session) × (after : Files) × (validate blake3 block_size session_dir now src dst
            file_size loaded files
          ≡ (ok o, after))
  unfolding validate
  validate-ok src dst file_size none files there = (none, files, refl)
  validate-ok src dst file_size (some s) files there =
      elim (Bool-cases
        (source_matches file_size (modified_secs src.modified) (unwrap_or_zero src.inode) s)) [
          | inl same ↦ (some s, files, rw (there, same) refl)
          | inr differs ↦
              (none, remove blake3 session_dir src.path dst.path files, rw (there, differs) refl)
        ]

  loaded-ok :
      (src : SourceFile) (dst : DestFile) (file_size : ℕ) (w : World)
      → src.has_metadata ≡ true
      → (o : Option Session) × (after : World) × (load_and_validate_session blake3 block_size
            session_dir now src dst file_size w
          ≡ (ok o, after))
  unfolding load_and_validate_session
  loaded-ok src dst file_size w there =
      let (found, files) = load blake3 session_dir now src.path dst.path w.sessions in
      let (o, after, e) = validate-ok src dst file_size found files there in
      (
        o,
        record w { sessions = after },
        ap (λ (p : Result (Option Session) × Files). (p.0, record w { sessions = p.1 })) e,
      )

  -- The session directory has a session for the two paths, and the source is the file it was
  -- written for.
  pub record HasSession (src : SourceFile) (dst : DestFile) (file_size : ℕ) (w : World)
      : Type 0 where
    pub session : Session
    pub found : (load blake3 session_dir now src.path dst.path w.sessions).0 ≡ some session
    pub same :
        source_matches file_size (modified_secs src.modified) (unwrap_or_zero src.inode) session
        ≡ true

  loaded-some :
      (src : SourceFile) (dst : DestFile) (file_size : ℕ) (w : World)
      → src.has_metadata ≡ true
      → (h : HasSession src dst file_size w)
      → (after : World) × (load_and_validate_session blake3 block_size session_dir now src dst
            file_size w
          ≡ (ok (some h.session), after))
  unfolding load_and_validate_session validate
  loaded-some src dst file_size w there h =
      let files = (load blake3 session_dir now src.path dst.path w.sessions).1 in
      (record w { sessions = files }, rw (h.found, there, h.same) refl)

  -- What is loaded does not matter with `append`; without, it has to be a session.
  decided :
      (src : SourceFile) (dst : DestFile) (file_size : ℕ) (resume append : Bool) (w : World)
      → src.has_metadata ≡ true
      → length dst.file.content ≡ file_size
      → (append ≡ true) ⊎ ((resume ≡ true) × HasSession src dst file_size w)
      → (o : Option Session) × (after : World) × (load_and_validate_session blake3 block_size
            session_dir now src dst file_size w
          ≡ (ok o, after))
        × (decide blake3 block_size session_dir now src dst file_size false append o
            ≡ ok already_complete)
        × ((resume || append || false) ≡ true)
  unfolding decide resolve_append resolve_with_session
  decided src dst file_size resume true w there size either =
      let (o, after, e) = loaded-ok src dst file_size w there in
      (o, after, e, rw ((==_iff (length dst.file.content) file_size).1 size) refl, ground arith)
  decided src dst file_size resume false w there size (inl appends) =
      absurd (ground (arith, appends))
  decided src dst file_size resume false w there size (inr (resumes, h)) =
      let (after, e) = loaded-some src dst file_size w there h in
      (
        some h.session,
        after,
        e,
        rw ((==_iff (length dst.file.content) file_size).1 size) refl,
        rw resumes refl,
      )

  -- A rerun that finds a destination as long as the source.
  same_length :
      (src : SourceFile) (dst : DestFile) (file_size : ℕ) (resume append : Bool) (w : World)
      → src.has_metadata ≡ true
      → dst.has_metadata ≡ true
      → length dst.file.content ≡ file_size
      → (append ≡ true) ⊎ ((resume ≡ true) × HasSession src dst file_size w)
      → (st : ResumeState) × (w' : World) × (resolve blake3 block_size session_dir now src
            (some dst)
            file_size
            resume
            false
            append
            w
          ≡ (ok st, w'))
        × (st.is_complete ≡ true)
  unfolding resolve lift conclude
  same_length src dst file_size resume append w there here size either =
      let (o, after, e, complete, on) =
        decided src dst file_size resume append w there size either in
      let st : ResumeState = record { start_offset = 0; is_complete = true; loaded_session = o } in
      (
        st,
        callback file_size after,
        simp (here, on)
            (bind_ok _ _ e (bind_ok _ _ (ap (λ (r : Result Decision). (r, after)) complete) refl)),
        refl,
      )

  -- A copy that looks for no holes, preallocates its destination and is then interrupted by a read
  -- that fails, after however few bytes, when nothing else failed, is called complete when it is run
  -- again with `append`, if the metadata of both files can be read; and so it is when it is run
  -- again with `resume`, if the session directory has a session for the two paths that is not too
  -- old, and the source is still the file it was written for.
  pub interrupted_complete :
      (detect_size : ℕ) (faults : Faults) (src : SourceFile) (dst : DestFile) (start file_size : ℕ)
      (before : Bytes) (need : Bool) (own : Option Session) (parts : List Bytes) (e : BcmrError)
      (resume append : Bool) (w : World)
      → IsCalm faults
      → src.has_metadata ≡ true
      → dst.has_metadata ≡ true
      → start ≤ length (opened start before)
      → length (opened start before) ≤ file_size
      → start + length (concat parts) ≤ file_size
      → dst.file.content
        ≡ (streaming_copy blake3 block_size detect_size faults never start need own parts
            (some e)
            (preallocated start file_size (opened start before))).1.file
      → (append ≡ true) ⊎ ((resume ≡ true) × HasSession src dst file_size w)
      → (st : ResumeState) × (w' : World) × (resolve blake3 block_size session_dir now src
            (some dst)
            file_size
            resume
            false
            append
            w
          ≡ (ok st, w'))
        × (st.is_complete ≡ true)
  interrupted_complete detect_size faults src dst start file_size before need own parts e resume
        append w calm there here lo hi fits is either =
      let file = preallocated start file_size (opened start before) in
      let whole = length-preallocated start file_size (opened start before) lo hi in
      let size : length dst.file.content ≡ file_size =
        ap (λ (c : Bytes). length c) is
        ∙ length-streaming_copy blake3 block_size detect_size faults calm file e start need own
            parts (omega (arith, whole, fits))
        ∙ whole in
      same_length src dst file_size resume append w there here size either
