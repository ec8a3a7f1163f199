-- ===== src/FileCopy.antt =====
-- `copy_file` of src/commands/copy/file_copy.rs as it is built for Linux, with `try_reflink` and
-- `finalize` of src/commands/copy_strategies.rs, and the guard of its temporary file and
-- `verify_copy` of src/commands/copy.rs. What is reported to the
-- callbacks is left out; the length of the source is that of its content.
pub mod Calls
pub mod Names
pub mod Range
pub mod Ranged
pub mod Fresh
pub mod Finished
pub mod Streamed
pub mod Targets
pub mod Steps
pub mod Atomic
pub mod Compared
pub mod Concluded
pub mod Verified
pub mod Modes
use bcmr.Prelude.{
  ℕ, zero, suc, ◌+◌, ◌-◌, ◌*◌, ◌^◌, ltb, ◌==◌, if◌then◌else◌, not, Bool, true, false,
}
use bcmr.Prelude.{◌&&◌, ◌||◌, Option, none, some, List, [], ◌∷◌, ◌++◌, length, take, drop}
use Prim.Native.Nat.{min}
use bcmr.Bytes.Word.{Bytes}
use bcmr.Bytes.Equal.{bytes_eq}
use bcmr.Bytes.Write.{write_at}
use bcmr.Bytes.Digest.{Blake3}
use bcmr.Errors.{BcmrError, Result, ok, err, io, other, Exec, pure, raise, ◌>>=◌, ◌>>◌}
use bcmr.Errors
use bcmr.Session.{Session}
use bcmr.Session.Store.{Files, put, to_hex, save}
use bcmr.Session.Store
use bcmr.Resume.{ResumeState, SourceFile, DestFile, World, resolve, calculate_hash}
use bcmr.Resume.Preallocated.{opened, preallocated}
use bcmr.Copy.{SparseMode, never, always, Save, CopyState, streaming_copy}
use bcmr.Copy
use bcmr.FileCopy.Calls.{CopySettings, Disk, Machine}
use bcmr.FileCopy.Names.{temp_path_for}
use bcmr.FileCopy.Range.{RangeEnd, range_loop}
use bcmr.Copy.Start.{SessionIntent, create_session}

unfoldable pub is_some : {A : Type 0} → Option A → Bool
is_some none = false
is_some (some a) = true

unfoldable pub content_of : Option Bytes → Bytes
content_of none = []
content_of (some content) = content

unfoldable pub is_never : SparseMode → Bool
is_never never = true
is_never _ = false

unfoldable pub is_always : SparseMode → Bool
is_always always = true
is_always _ = false

-- An operation of the system whose result is passed on by `?`.
unfoldable pub check : {S : Type 0} → Bool → Exec S (Unit {0})
check true = pure tt
check false = raise (io other)

module _ (blake3 : Blake3) (block_size detect_size : ℕ) (session_dir : Bytes) (machine : Machine)
    (src : SourceFile) (dst : Bytes) (opts : CopySettings) where
  abbrev pub file_size : ℕ
  file_size = length src.content

  abbrev pub temp : Bytes
  temp = temp_path_for dst

  unfoldable pub use_atomic : Bool
  use_atomic = not opts.resume && not opts.append && not opts.strict

  unfoldable pub write_target : Bytes
  write_target = if use_atomic then temp else dst

  -- `let _ = remove_file(path)`
  unfoldable pub removed : Bytes → Files → Files
  removed path files = if machine.sticks path then files else put path none files

  unfoldable pub prepare : Exec Disk (Unit {0})
  prepare st =
      if use_atomic
      then (ok tt, record st { files = removed temp st.files; guard = some temp })
      else (ok tt, st)

  unfoldable pub try_reflink : Exec Disk Bool
  try_reflink st =
      if not opts.try_reflink || is_always opts.sparse_mode
      then (ok false, st)
      else if machine.reflinks (is_some (st.files write_target))
      then (ok true, record st { files = put write_target (some src.content) st.files })
      else if opts.fail_on_error
      then (err Errors.reflink, st)
      else (ok false, st)

  -- The preallocation may fail.
  unfoldable pub allocated : (start : ℕ) → Bytes → Bytes
  allocated start content =
      if machine.preallocates then preallocated start file_size content else content

  unfoldable pub keep_range : RangeEnd → Disk → Option (Result (Unit {0})) × Disk
  keep_range (none, file) st =
      (none, record st { files = removed write_target (put write_target (some file) st.files) })
  keep_range (some r, file) st =
      (some r, record st { files = put write_target (some file) st.files })

  unfoldable pub try_copy_file_range : Disk → Option (Result (Unit {0})) × Disk
  try_copy_file_range st =
      if machine.range_opens
      then keep_range (range_loop machine src.content (file_size + 1) 0 file_size (allocated 0 []))
          st
      else (none, st)

  unfoldable pub passed_on : Option (Result (Unit {0})) × Disk → Result (Option (Unit {0})) × Disk
  passed_on (none, t) = (ok none, t)
  passed_on (some (ok done), t) = (ok (some tt), t)
  passed_on (some (err e), t) = (err e, t)

  unfoldable pub ranged : Exec Disk (Option (Unit {0}))
  ranged st =
      if use_atomic && is_never opts.sparse_mode
      then passed_on (try_copy_file_range st)
      else (ok none, st)

  -- The hash of the source is the one that the copy has found, or is computed.
  unfoldable pub src_hash : Option Bytes → Option Bytes
  src_hash (some h) = some (to_hex h)
  src_hash none = calculate_hash blake3 block_size session_dir machine.now src.readable src.content

  unfoldable pub compare_hashes : Option Bytes → Option Bytes → Exec Disk (Unit {0})
  compare_hashes (some a) (some b) st =
      if bytes_eq a b
      then (ok tt, st)
      else (err Errors.verification_error, record st { files = removed dst st.files })
  compare_hashes _ _ st = (err (io other), st)

  unfoldable pub verify_copy : Option Bytes → Exec Disk (Unit {0})
  verify_copy inline st =
      compare_hashes (src_hash inline)
        (calculate_hash blake3 block_size session_dir machine.now
          (machine.reads_dst && is_some (st.files dst)) (content_of (st.files dst)))
        st

  -- The rename, behind which the guard is disarmed.
  unfoldable pub rename : Exec Disk (Unit {0})
  rename st =
      if machine.renames
      then (
        ok tt,
        record st { files = put dst (st.files temp) (put temp none st.files); guard = none },
      )
      else (err (io other), st)

  unfoldable pub remove_session : Exec Disk (Unit {0})
  remove_session st =
      (ok tt, record st { sessions = Store.remove blake3 session_dir src.path dst st.sessions })

  unfoldable pub finalize : Option Bytes → Exec Disk (Unit {0})
  finalize inline = do
    check (not opts.sync || machine.syncs)
    if use_atomic then rename else pure tt
    check (not opts.preserve || machine.preserves)
    if opts.verify then verify_copy inline else pure tt
    remove_session

  -- `run_finalize(ctx, File::open(&write_target)?)`
  unfoldable pub reopen_and_finalize : Exec Disk (Unit {0})
  reopen_and_finalize = do check machine.reopens; finalize none

  unfoldable pub resolved : Exec Disk ResumeState
  resolved st =
      let w : World = record { sessions = st.sessions; reported = [] } in
      let (r, after) =
        resolve blake3 block_size session_dir machine.now src (machine.dst_file (st.files dst))
          file_size opts.resume opts.strict opts.append w in
      (r, record st { sessions = after.sessions })

  -- The result of `save` is not looked at.
  unfoldable pub save_all : ℕ → List Save → Files → Files
  save_all i [] sessions = sessions
  save_all i (s ∷ saves) sessions =
      save_all (suc i) saves (save blake3 session_dir (machine.saving i) s.session sessions).1

  unfoldable pub stream : ResumeState → Exec Disk (Option Bytes)
  stream state st =
      let start = state.start_offset in
      let intent : SessionIntent = record {
        resume = opts.resume;
        append = opts.append;
        strict = opts.strict;
      } in
      let session =
        create_session block_size machine.now src dst file_size start intent state.loaded_session in
      let (r, t) =
        streaming_copy blake3 block_size detect_size machine.copying opts.sparse_mode start
          (opts.verify || is_some session) session (machine.parts start) (machine.ending start)
          (allocated start (opened start (content_of (st.files write_target)))) in
      (
        r,
        record st {
          files = put write_target (some t.file) st.files;
          sessions = save_all 0 t.saves st.sessions;
        },
      )

  unfoldable pub copy_from : ResumeState → Exec Disk (Unit {0})
  copy_from state = do
    check (machine.opens_src && (machine.opens_dst && ltb state.start_offset (2 ^ 63)))
    hash ← stream state
    finalize hash

  unfoldable pub copy_through : Exec Disk (Unit {0})
  copy_through = do state ← resolved; if state.is_complete then pure tt else copy_from state

  unfoldable pub after_range : Option (Unit {0}) → Exec Disk (Unit {0})
  after_range (some done) = reopen_and_finalize
  after_range none = copy_through

  unfoldable pub after_reflink : Bool → Exec Disk (Unit {0})
  after_reflink true = reopen_and_finalize
  after_reflink false = do done ← ranged; after_range done

  unfoldable pub guarded : Exec Disk (Unit {0})
  guarded = do
    check machine.has_metadata
    check machine.has_parent
    prepare
    linked ← try_reflink
    after_reflink linked

  -- The guard is dropped.
  unfoldable pub drop_guard : Option Bytes → Disk → Disk
  drop_guard none st = st
  drop_guard (some path) st = record st { files = removed path st.files; guard = none }

  unfoldable pub copy_file : Exec Disk (Unit {0})
  copy_file st = let (r, t) = guarded (record st { guard = none }) in (r, drop_guard t.guard t)
