-- ===== src/Examples/Copies.antt =====
-- Sessions on disk, and copies that are resumed.
use bcmr.Prelude.{◌+◌, ◌≤◌, ◌≡◌, ◌≢◌, ◌⊎◌, refl, arith, true, false}
use bcmr.Prelude.{none, some, [], ◌∷◌, ◌++◌, All, take}
use bcmr.Bytes.Word.{Bytes, IsByte, to_le_bytes}
use bcmr.Bytes.Int.{pos}
use bcmr.Errors.{ok}
use bcmr.Paths.{path_eq}
use bcmr.Session.{Session, IsSession, session_max_age_secs}
use bcmr.Session.Format.{
  first_eight, serialize, deserialize, read_payload, write_payload, write_fields, write_src_hash,
}
use bcmr.Protocol.Writer.{write_all, write_u32_le, write_u64_le}
use bcmr.Session.RoundTrip.{deserialize-serialize}
use bcmr.Session.Accepts.{deserialize-some}
use bcmr.Session.Resume.{OpenFile}
use bcmr.Session.Store.{Files, Faults, session_path, tmp_path, save, fails_early, parsed, load}
use bcmr.Session.Store.Crash.{save-atomic}
use bcmr.Session.Store.Reload.{load-some, load-save}
use bcmr.Resume.{ResumeState, SourceFile, DestFile, World}
use bcmr.Examples.Toy
use bcmr.Examples.Toy.{toy_blake3}

abbrev path_a : Bytes
path_a = b'/' ∷ b'a' ∷ []

abbrev pub path_b : Bytes
path_b = b'/' ∷ b'b' ∷ []

abbrev pub dir : Bytes
dir = b'/' ∷ b's' ∷ []

-- A copy of six bytes, of which a block of four is written.
abbrev pub session : Session
session = record {
  src_path = path_a;
  dst_path = path_b;
  src_size = 6;
  src_mtime = 1000;
  src_inode = 42;
  bytes_written = 4;
  block_hashes = (4 ∷ Toy.zeros 31) ∷ [];
  src_hash = none;
  created_at = 1000;
  updated_at = 2000;
}

pub session-IsSession : IsSession session
session-IsSession = record {
  src_path = ((omega arith, (omega arith, tt)), omega arith);
  dst_path = ((omega arith, (omega arith, tt)), omega arith);
  src_size = omega arith;
  src_mtime = omega arith;
  src_inode = omega arith;
  bytes_written = omega arith;
  block_hashes = ((toy_blake3.digest (1 ∷ 2 ∷ 3 ∷ 4 ∷ []), tt), omega arith);
  src_hash = tt;
  created_at = omega arith;
  updated_at = omega arith;
}

deserialize-serialize_example : deserialize toy_blake3 (serialize toy_blake3 session) ≡ some session
deserialize-serialize_example = deserialize-serialize toy_blake3 session session-IsSession

session_bytes : All IsByte (serialize toy_blake3 session)
unfolding serialize write_payload write_fields first_eight to_le_bytes write_all write_src_hash
    write_u32_le write_u64_le take
session_bytes = ground arith

deserialize-some_example :
    (payload : Bytes) × (rest : Bytes) × (serialize toy_blake3 session
      ≡ payload ++ first_eight (toy_blake3.hash payload))
    × (read_payload payload ≡ some (session, rest))
    × IsSession session
deserialize-some_example =
    deserialize-some toy_blake3 (serialize toy_blake3 session) session session_bytes
      (deserialize-serialize toy_blake3 session session-IsSession)

abbrev pub no_files : Files
no_files p = none

abbrev pub no_faults : Faults
no_faults = record {
  create_dir = false;
  create = false;
  written = none;
  sync = false;
  rename = false;
}

save-atomic_example :
    let path = session_path toy_blake3 dir path_a path_b in
    let tmp = tmp_path toy_blake3 dir path_a path_b in
    let (r, after) = save toy_blake3 dir no_faults session no_files in
    ((r ≡ ok tt) × (after path ≡ some (serialize toy_blake3 session)) × (after tmp ≡ none))
    ⊎ ((r ≢ ok tt) × (after path ≡ none))
save-atomic_example = save-atomic toy_blake3 dir no_faults session no_files

pub saved : (save toy_blake3 dir no_faults session no_files).0 ≡ ok tt
unfolding save fails_early
saved = refl

load-save_example :
    (load toy_blake3 dir 3000 path_a path_b (save toy_blake3 dir no_faults session no_files).1).0
    ≡ some session
load-save_example =
    load-save toy_blake3 dir no_faults session no_files 3000 session-IsSession saved (omega arith)

abbrev pub files : Files
files = (save toy_blake3 dir no_faults session no_files).1

load-some_example :
    ((load toy_blake3 dir 3000 path_a path_b files).1 ≡ files)
    × (parsed toy_blake3 dir (files (session_path toy_blake3 dir path_a path_b)) ≡ some session)
    × (3000 ≤ 2000 + session_max_age_secs)
    × (path_eq path_a path_a ≡ true)
    × (path_eq path_b path_b ≡ true)
load-some_example = load-some toy_blake3 dir 3000 path_a path_b files session load-save_example

abbrev partial_copy : OpenFile
partial_copy = record { content = 1 ∷ 2 ∷ 3 ∷ 4 ∷ 5 ∷ []; fails = λ offset. false }

abbrev pub source : SourceFile
source = record {
  path = path_a;
  content = 1 ∷ 2 ∷ 3 ∷ 4 ∷ 5 ∷ 6 ∷ [];
  modified = pos 1_000_000_000_000;
  inode = some 42;
  has_metadata = true;
  readable = true;
}

abbrev pub dest : Bytes → DestFile
dest content = record {
  path = path_b;
  file = record { content = content; fails = λ offset. false };
  modified = pos 2_000_000_000_000;
  has_metadata = true;
  readable = true;
}

abbrev world : World
world = record { sessions = no_files; reported = [] }

abbrev shorter : DestFile
shorter = dest (1 ∷ 2 ∷ 3 ∷ 4 ∷ [])

abbrev going_on : ResumeState
going_on = record { start_offset = 4; is_complete = false; loaded_session = none }

abbrev told : World
told = record { sessions = no_files; reported = 4 ∷ [] }
