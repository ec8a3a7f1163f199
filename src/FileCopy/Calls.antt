-- ===== src/FileCopy/Calls.antt =====
-- What `copy_file` of src/commands/copy/file_copy.rs works on: its options, the files, and what the
-- calls of the system do.
use bcmr.Prelude.{ℕ, Bool, Option, List}
use bcmr.Bytes.Word.{Bytes}
use bcmr.Errors.{BcmrError}
use bcmr.Session.Store.{Files}
use bcmr.Session.Store
use bcmr.Resume.{DestFile}
use bcmr.Copy.{SparseMode}
use bcmr.Copy

-- The options of `copy_file`, taken apart and with their modes resolved; no test mode is set.
pub record CopySettings : Type 0 where
  pub preserve : Bool
  pub verify : Bool
  pub resume : Bool
  pub strict : Bool
  pub append : Bool
  pub sync : Bool
  pub try_reflink : Bool
  pub fail_on_error : Bool
  pub sparse_mode : SparseMode

-- `guard` is the path of the temporary file while it is guarded.
pub record Disk : Type 0 where
  pub files : Files
  pub sessions : Files
  pub guard : Option Bytes

-- What a call of `copy_file_range` does: it moves so many bytes, as far as they were asked for and
-- are there, or its error is one of those for which the copy is made in another way, or another.
pub data RangeResult : Type 0 where
  moved : ℕ → RangeResult
  unsupported failed : RangeResult

-- What the calls of the system do. `sticks` says that a file cannot be removed, `reflinks` whether
-- a target that is there or not becomes a clone, `range` what a call at an offset does; `parts` and
-- `ending` are what is read from an offset on, and `dst_file` is what `resolve` finds.
pub record Machine : Type 0 where
  pub has_metadata : Bool
  pub has_parent : Bool
  pub sticks : Bytes → Bool
  pub reflinks : Bool → Bool
  pub range_opens : Bool
  pub preallocates : Bool
  pub range : ℕ → RangeResult
  pub dst_file : Option Bytes → Option DestFile
  pub opens_src : Bool
  pub opens_dst : Bool
  pub parts : ℕ → List Bytes
  pub ending : ℕ → Option BcmrError
  pub copying : Copy.Faults
  pub saving : ℕ → Store.Faults
  pub reopens : Bool
  pub syncs : Bool
  pub renames : Bool
  pub preserves : Bool
  pub reads_dst : Bool
  pub now : ℕ
