-- ===== src/Resume.antt =====
-- src/core/resume.rs, and the hashes of src/core/checksum.rs that it compares: where a copy into a
-- destination that exists already starts.
pub mod Outcome
pub mod Preallocated
use bcmr.Prelude.{ℕ, ◌/◌, ltb, ◌==◌, if◌then◌else◌, Bool, true, false, not, ◌||◌, ◌&&◌}
use bcmr.Prelude.{Option, none, some, List, [], ◌∷◌, ◌++◌, length, take}
use bcmr.Bytes.Word.{Bytes}
use bcmr.Bytes.Int.{ℤ, pos, negsuc}
use bcmr.Bytes.Equal.{bytes_eq}
use bcmr.Bytes.Digest.{Blake3}
use bcmr.Errors.{Result, ok, err, io, other, Exec, pure, raise, ◌>>=◌}
use bcmr.Session.{Session, source_matches}
use bcmr.Session.Resume.{OpenFile, find_resume_offset}
use bcmr.Session.Store.{Files, to_hex, load, remove}

pub data Decision : Type 0 where
  resume already_complete overwrite : Decision

pub record ResumeState : Type 0 where
  pub start_offset : ℕ
  pub is_complete : Bool
  pub loaded_session : Option Session

-- The time a file was modified is in nanoseconds since the epoch. `inode` is the result of
-- `get_inode`; a file that is not readable cannot be opened.
pub record SourceFile : Type 0 where
  pub path : Bytes
  pub content : Bytes
  pub modified : ℤ
  pub inode : Option ℕ
  pub has_metadata : Bool
  pub readable : Bool

pub record DestFile : Type 0 where
  pub path : Bytes
  pub file : OpenFile
  pub modified : ℤ
  pub has_metadata : Bool
  pub readable : Bool

-- What `resolve` changes: the files of the session directory, and what was reported to `callback`.
pub record World : Type 0 where
  pub sessions : Files
  pub reported : List ℕ

unfoldable pub modified_secs : ℤ → ℕ
modified_secs (pos n) = n / 1_000_000_000
modified_secs (negsuc n) = 0

unfoldable pub same_time : ℤ → ℤ → Bool
same_time (pos n) (pos k) = n == k
same_time (negsuc n) (negsuc k) = n == k
same_time _ _ = false

unfoldable pub unwrap_or_zero : Option ℕ → ℕ
unwrap_or_zero none = 0
unwrap_or_zero (some n) = n

-- Both hashes are there and agree, both are there and differ, or one could not be computed.
unfoldable pub compared : Option Bytes → Option Bytes → Decision → Result Decision
compared (some a) (some b) same = ok (if bytes_eq a b then same else overwrite)
compared _ _ same = err (io other)

-- By the lengths alone.
unfoldable pub resolve_append : (file_size dst_len : ℕ) → Decision
resolve_append file_size dst_len =
    if dst_len == file_size
    then already_complete
    else if ltb dst_len file_size
    then resume
    else overwrite

unfoldable pub is_empty : List Bytes → Bool
is_empty [] = true
is_empty (x ∷ xs) = false

unfoldable pub resolve_with_session : (file_size dst_len : ℕ) → Session → Decision
resolve_with_session file_size dst_len session =
    if dst_len == file_size
    then already_complete
    else if ltb dst_len file_size && not (is_empty session.block_hashes)
    then resume
    else overwrite

unfoldable pub resolve_mtime : SourceFile → DestFile → (file_size dst_len : ℕ) → Result Decision
resolve_mtime src dst file_size dst_len =
    if not (src.has_metadata && dst.has_metadata)
    then err (io other)
    else if not (same_time src.modified dst.modified)
    then ok overwrite
    else ok (resolve_append file_size dst_len)

unfoldable pub lift : {S A : Type 0} → Result A → Exec S A
lift r s = (r, s)

unfoldable pub fresh : Option Session → ResumeState
fresh loaded = record { start_offset = 0; is_complete = false; loaded_session = loaded }

unfoldable pub callback : ℕ → World → World
callback n w = record w { reported = w.reported ++ (n ∷ []) }

module _ (blake3 : Blake3) (block_size : ℕ) (session_dir : Bytes) (now : ℕ) where
  unfoldable pub calculate_hash : Bool → Bytes → Option Bytes
  calculate_hash readable content = if readable then some (to_hex (blake3.hash content)) else none

  unfoldable pub calculate_partial_hash : Bool → Bytes → ℕ → Option Bytes
  calculate_partial_hash readable content limit = calculate_hash readable (take limit content)

  unfoldable pub resolve_strict : SourceFile → DestFile → (file_size dst_len : ℕ) → Result Decision
  resolve_strict src dst file_size dst_len =
      let dst_hash = calculate_hash dst.readable dst.file.content in
      if dst_len == file_size
      then compared (calculate_hash src.readable src.content) dst_hash already_complete
      else if ltb dst_len file_size
      then compared dst_hash (calculate_partial_hash src.readable src.content dst_len) resume
      else ok overwrite

  -- A session that was loaded is used where the source is still the file it was written for.
  unfoldable pub validate :
      SourceFile → DestFile → ℕ → Option Session → Files → Result (Option Session) × Files
  validate src dst file_size none files = (ok none, files)
  validate src dst file_size (some session) files =
      if not src.has_metadata
      then (err (io other), files)
      else if source_matches file_size (modified_secs src.modified) (unwrap_or_zero src.inode)
          session
      then (ok (some session), files)
      else (ok none, remove blake3 session_dir src.path dst.path files)

  unfoldable pub load_and_validate_session : SourceFile → DestFile → ℕ → Exec World (Option Session)
  load_and_validate_session src dst file_size w =
      let (loaded, files) = load blake3 session_dir now src.path dst.path w.sessions in
      let (r, after) = validate src dst file_size loaded files in (r, record w { sessions = after })

  unfoldable pub decide :
      SourceFile
      → DestFile
      → (file_size : ℕ) → (strict append : Bool) → Option Session
      → Result Decision
  decide src dst file_size true append loaded =
      resolve_strict src dst file_size (length dst.file.content)
  decide src dst file_size false true loaded =
      ok (resolve_append file_size (length dst.file.content))
  decide src dst file_size false false (some session) =
      ok (resolve_with_session file_size (length dst.file.content) session)
  decide src dst file_size false false none =
      resolve_mtime src dst file_size (length dst.file.content)

  -- Where the copy starts once the decision is to resume.
  unfoldable pub resumed_at : DestFile → Option Session → ℕ
  resumed_at dst none = length dst.file.content
  resumed_at dst (some session) =
      find_resume_offset blake3 block_size (if dst.readable then some dst.file else none) session

  unfoldable pub conclude : DestFile → ℕ → Option Session → Decision → Exec World ResumeState
  conclude dst file_size loaded already_complete w = (
    ok (record { start_offset = 0; is_complete = true; loaded_session = loaded }),
    callback file_size w,
  )
  conclude dst file_size loaded overwrite w = (ok (fresh loaded), w)
  conclude dst file_size loaded resume w =
      let at = resumed_at dst loaded in
      (
        ok (record { start_offset = at; is_complete = false; loaded_session = loaded }),
        if ltb 0 at then callback at w else w,
      )

  -- `dst` is `none` where the destination does not exist.
  unfoldable pub resolve :
      SourceFile
      → Option DestFile
      → (file_size : ℕ) → (wants_resume strict append : Bool) → Exec World ResumeState
  resolve src none file_size wants_resume strict append = pure (fresh none)
  resolve src (some dst) file_size wants_resume strict append =
      if not (wants_resume || append || strict)
      then pure (fresh none)
      else if not dst.has_metadata
      then raise (io other)
      else do
        loaded ← load_and_validate_session src dst file_size
        decision ← lift (decide src dst file_size strict append loaded)
        conclude dst file_size loaded decision
