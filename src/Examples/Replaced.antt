-- ===== src/Examples/Replaced.antt =====
-- A copy of six bytes over a file that is there, through a temporary file.
use bcmr.Prelude.{Bool, ◌≡◌, ◌⊎◌, refl, arith, true, false}
use bcmr.Prelude.{none, some, [], ◌∷◌, concat}
use bcmr.Bytes.Word.{Bytes}
use bcmr.Errors.{ok, ◌>>=◌}
use bcmr.Copy.{auto, never}
use bcmr.Session.Store.{put, to_hex}
use bcmr.FileCopy.Calls.{CopySettings, Disk, Machine, unsupported}
use bcmr.FileCopy.Names.{split_name, temp_path_for}
use bcmr.FileCopy.{
  guarded, check, prepare, try_reflink, is_always, after_reflink, reopen_and_finalize, finalize,
  rename, verify_copy, compare_hashes, src_hash, is_some, write_target, removed, content_of,
  remove_session,
}
use bcmr.Resume.{calculate_hash}
use bcmr.FileCopy.{copy_file, use_atomic}
use bcmr.Bytes.Equal.{bytes_eq}
use bcmr.FileCopy.Modes.{CopyFileOptions, settings_of, resolve_sparse_mode, resolve_reflink_mode}
use bcmr.FileCopy.Modes.{mode_str, to_lowercase, to_lower, is_off}
use bcmr.FileCopy.Streamed.{IsSteady}
use bcmr.FileCopy.Verified.{Verified, Skipped, copy_file-Verified}
use bcmr.FileCopy.Atomic.{copy_file-copies}
use bcmr.Examples.Toy.{toy_blake3}
use bcmr.Examples.Copies.{path_b, source}
use bcmr.Examples.Streaming.{calm, calm-IsCalm}

-- The rename fails or not.
abbrev machine : Bool → Machine
machine renames = record {
  has_metadata = true;
  has_parent = true;
  sticks = λ path. false;
  reflinks = λ there. false;
  range_opens = true;
  preallocates = true;
  range = λ at. unsupported;
  dst_file = λ content. none;
  opens_src = true;
  opens_dst = true;
  parts = λ at. (1 ∷ 2 ∷ 3 ∷ 4 ∷ []) ∷ (5 ∷ 6 ∷ []) ∷ [];
  ending = λ at. none;
  copying = calm;
  saving = λ i. record {
    create_dir = false;
    create = false;
    written = none;
    sync = false;
    rename = false;
  };
  reopens = true;
  syncs = true;
  renames = renames;
  preserves = true;
  reads_dst = true;
  now = 9;
}

steady : (renames : Bool) → IsSteady (machine renames) source.content
unfolding concat
steady renames = record { reads = λ e. refl; moves = λ at h e. cc; room = omega arith }

abbrev plain : CopySettings
plain = record {
  preserve = false;
  verify = false;
  resume = false;
  strict = false;
  append = false;
  sync = true;
  try_reflink = true;
  fail_on_error = false;
  sparse_mode = auto;
}

-- The options without arguments, where the configuration sets both modes to "Auto".
abbrev given : CopyFileOptions
given = record {
  transfer = record {
    preserve = false;
    verify = false;
    resume = false;
    strict = false;
    append = false;
    sync = true;
  };
  reflink_arg = none;
  sparse_arg = none;
}

defaults :
    settings_of (b'A' ∷ b'u' ∷ b't' ∷ b'o' ∷ []) (b'A' ∷ b'u' ∷ b't' ∷ b'o' ∷ []) given ≡ plain
unfolding settings_of resolve_reflink_mode resolve_sparse_mode bytes_eq mode_str to_lowercase
    to_lower is_off
defaults = refl

never_sparse : resolve_sparse_mode [] (some (b'N' ∷ b'e' ∷ b'v' ∷ b'e' ∷ b'r' ∷ [])) ≡ never
unfolding resolve_sparse_mode bytes_eq mode_str to_lowercase to_lower is_off
never_sparse = refl

abbrev before : Disk
before = record {
  files = put path_b (some (9 ∷ 9 ∷ [])) (λ p. none);
  sessions = λ p. none;
  guard = none;
}

abbrev another : Bytes
another = b'c' ∷ []

atomic :
    (renames : Bool) → use_atomic toy_blake3 4 2 [] (machine renames) source path_b plain ≡ true
unfolding use_atomic
atomic renames = refl

copy_file-copies_example :
    let (r, t) = copy_file toy_blake3 4 2 [] (machine true) source path_b plain before in
    (r ≡ ok tt) × (t.files path_b ≡ some source.content) × (t.files (temp_path_for path_b) ≡ none)
copy_file-copies_example =
    copy_file-copies toy_blake3 4 2 [] (machine true) source path_b plain (omega arith)
      (steady true) (atomic true) before
      (record {
        has_metadata = refl;
        has_parent = refl;
        opens_src = refl;
        opens_dst = refl;
        ending = refl;
        copying = calm-IsCalm;
        reopens = refl;
        syncs = refl;
        renames = refl;
        preserves = refl;
        ranges = λ at e. cc;
        clones = λ forced there. absurd (ground (arith, forced));
        unverified = refl;
      })

-- A clone that is verified.
abbrev cloning : Machine
cloning = record (machine true) { reflinks = λ there. true }

abbrev checked : CopySettings
checked = record plain { verify = true }

cloned : (copy_file toy_blake3 4 2 [] cloning source path_b checked before).0 ≡ ok tt
unfolding copy_file guarded ◌>>=◌ check prepare use_atomic try_reflink is_always after_reflink
    reopen_and_finalize finalize rename verify_copy compare_hashes src_hash calculate_hash is_some
    put write_target removed content_of bytes_eq to_hex remove_session split_name temp_path_for
cloned = refl

copy_file-Verified_example :
    Verified toy_blake3 4 2 [] cloning source path_b checked
      (copy_file toy_blake3 4 2 [] cloning source path_b checked before).1
    ⊎ Skipped toy_blake3 4 2 [] cloning source path_b checked before
copy_file-Verified_example =
    copy_file-Verified toy_blake3 4 2 [] cloning source path_b checked refl before cloned
