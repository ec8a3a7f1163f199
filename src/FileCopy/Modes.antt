-- ===== src/FileCopy/Modes.antt =====
-- The options of a copy and the texts that stand for its modes: `CopyFileOptions`,
-- `resolve_reflink_mode` and `resolve_sparse_mode` of src/commands/copy/file_copy.rs. A letter that
-- is not in ASCII never becomes one of those of the words below, so that `to_lowercase` is written
-- out for ASCII.
use bcmr.Prelude.{
  ℕ, ◌+◌, leb, if◌then◌else◌, Bool, true, false, ◌&&◌, ◌||◌, Option, none, some, [], ◌∷◌,
}
use bcmr.Bytes.Word.{Bytes}
use bcmr.Bytes.Equal.{bytes_eq}
use bcmr.Copy.{SparseMode, never, always, auto}
use bcmr.FileCopy.Calls.{CopySettings}

unfoldable pub to_lower : ℕ → ℕ
to_lower c = if leb b'A' c && leb c b'Z' then c + 32 else c

unfoldable pub to_lowercase : Bytes → Bytes
to_lowercase [] = []
to_lowercase (c ∷ cs) = to_lower c ∷ to_lowercase cs

-- "force", "disable" and "never"
abbrev pub force : Bytes
force = b'f' ∷ b'o' ∷ b'r' ∷ b'c' ∷ b'e' ∷ []

abbrev pub disable : Bytes
disable = b'd' ∷ b'i' ∷ b's' ∷ b'a' ∷ b'b' ∷ b'l' ∷ b'e' ∷ []

abbrev pub never_word : Bytes
never_word = b'n' ∷ b'e' ∷ b'v' ∷ b'e' ∷ b'r' ∷ []

unfoldable pub is_off : Bytes → Bool
is_off mode = bytes_eq mode disable || bytes_eq mode never_word

-- The argument, or the setting of the configuration.
unfoldable pub mode_str : (setting : Bytes) → Option Bytes → Bytes
mode_str setting none = to_lowercase setting
mode_str setting (some arg) = to_lowercase arg

-- Whether to try a clone, and whether to fail without one.
unfoldable pub resolve_reflink_mode : (setting : Bytes) → Option Bytes → Bool × Bool
resolve_reflink_mode setting arg =
    if bytes_eq (mode_str setting arg) force
    then (true, true)
    else if is_off (mode_str setting arg)
    then (false, false)
    else (true, false)

unfoldable pub resolve_sparse_mode : (setting : Bytes) → Option Bytes → SparseMode
resolve_sparse_mode setting arg =
    if bytes_eq (mode_str setting arg) force
    then always
    else if is_off (mode_str setting arg)
    then never
    else auto

pub record TransferOptions : Type 0 where
  pub preserve : Bool
  pub verify : Bool
  pub resume : Bool
  pub strict : Bool
  pub append : Bool
  pub sync : Bool

-- Without the test mode.
pub record CopyFileOptions : Type 0 where
  pub transfer : TransferOptions
  pub reflink_arg : Option Bytes
  pub sparse_arg : Option Bytes

-- What `copy_file` begins with.
unfoldable pub settings_of :
    (reflink_setting sparse_setting : Bytes) → CopyFileOptions → CopySettings
settings_of reflink_setting sparse_setting opts =
    let (try_reflink, fail_on_error) = resolve_reflink_mode reflink_setting opts.reflink_arg in
    record {
      preserve = opts.transfer.preserve;
      verify = opts.transfer.verify;
      resume = opts.transfer.resume;
      strict = opts.transfer.strict;
      append = opts.transfer.append;
      sync = opts.transfer.sync;
      try_reflink = try_reflink;
      fail_on_error = fail_on_error;
      sparse_mode = resolve_sparse_mode sparse_setting opts.sparse_arg;
    }
