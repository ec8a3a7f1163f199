-- ===== src/Session/Store.antt =====
-- `load` and `save` of src/core/session.rs, over the files of the session directory. Its path is a
-- parameter; `durable_sync` and the permissions of the directory are not modelled further than
-- that they may fail.
pub mod Crash
pub mod Reload
use bcmr.Prelude.{ℕ, ◌+◌, ◌-◌, ◌*◌, ◌/◌, ◌%◌, ◌^◌, ltb, leb, ◌==◌, if◌then◌else◌, not, ◌||◌, take}
use bcmr.Prelude.{Bool, true, false, Option, none, some, List, [], ◌∷◌, ◌++◌, length}
use bcmr.Bytes.Word.{Bytes, to_le_bytes}
use bcmr.Bytes.Equal.{bytes_eq}
use bcmr.Bytes.Digest.{Blake3}
use bcmr.Errors.{Result, ok, err, io, other}
use bcmr.Paths.{path_eq}
use bcmr.Session.{Session, session_max_age_secs}
use bcmr.Session.Format.{serialize, deserialize, first_eight}

-- The content of each file.
abbrev pub Files : Type 0
Files = Bytes → Option Bytes

unfoldable pub put : Bytes → Option Bytes → Files → Files
put path content files p = if bytes_eq p path then content else files p

unfoldable pub hex_digit : ℕ → ℕ
hex_digit d = if ltb d 10 then b'0' + d else b'a' + (d - 10)

-- Two digits for a byte.
unfoldable pub to_hex : Bytes → Bytes
unfolding hex_digit
to_hex [] = []
to_hex (b ∷ bs) = hex_digit (b / 16) ∷ hex_digit (b % 16) ∷ to_hex bs

-- ".session" and ".tmp"
abbrev pub session_extension : Bytes
session_extension = b'.' ∷ b's' ∷ b'e' ∷ b's' ∷ b's' ∷ b'i' ∷ b'o' ∷ b'n' ∷ []

abbrev pub tmp_extension : Bytes
tmp_extension = b'.' ∷ b't' ∷ b'm' ∷ b'p' ∷ []

-- Which steps of `save` fail; `written` is `some n` where the write fails after `n` bytes. A run
-- that is cut off by a crash leaves the files of a run that failed at that place.
pub record Faults : Type 0 where
  pub create_dir : Bool
  pub create : Bool
  pub written : Option ℕ
  pub sync : Bool
  pub rename : Bool

-- What the write leaves in the temporary file.
unfoldable pub written_part : Option ℕ → Bytes → Bytes
written_part none bytes = bytes
written_part (some n) bytes = take n bytes

unfoldable pub fails_early : Option ℕ → Bool
fails_early none = false
fails_early (some n) = true

module _ (blake3 : Blake3) (session_dir : Bytes) where
  unfoldable pub session_key : Bytes → Bytes → Bytes
  session_key src dst =
      to_le_bytes 4 (length src % 2 ^ 32) ++ (src ++ (to_le_bytes 4 (length dst % 2 ^ 32) ++ dst))

  -- The first sixteen hexadecimal digits of the digest are those of its first eight bytes.
  unfoldable pub session_stem : Bytes → Bytes → Bytes
  session_stem src dst =
      session_dir ++ (b'/' ∷ to_hex (first_eight (blake3.hash (session_key src dst))))

  unfoldable pub session_path : Bytes → Bytes → Bytes
  session_path src dst = session_stem src dst ++ session_extension

  -- `path.with_extension("tmp")`
  unfoldable pub tmp_path : Bytes → Bytes → Bytes
  tmp_path src dst = session_stem src dst ++ tmp_extension

  unfoldable pub save : Faults → Session → Files → Result (Unit {0}) × Files
  save faults s files =
      let path = session_path s.src_path s.dst_path in
      let tmp = tmp_path s.src_path s.dst_path in
      let bytes = serialize blake3 s in
      let wrote = put tmp (some (written_part faults.written bytes)) files in
      if faults.create_dir || faults.create
      then (err (io other), files)
      else if fails_early faults.written || (faults.sync || faults.rename)
      then (err (io other), wrote)
      else (ok tt, put path (some bytes) (put tmp none wrote))

  -- The session of a file that was read; `none` where there was nothing to read.
  unfoldable pub parsed : Option Bytes → Option Session
  parsed none = none
  parsed (some bytes) = deserialize blake3 bytes

  -- What `load` does with a session that was read at the time `now`.
  unfoldable pub admit : ℕ → Bytes → Bytes → Option Session → Files → Option Session × Files
  admit now src dst none files = (none, files)
  admit now src dst (some s) files =
      if ltb session_max_age_secs (now - s.updated_at)
      then (none, put (session_path src dst) none files)
      else if not (path_eq s.src_path src) || not (path_eq s.dst_path dst)
      then (none, files)
      else (some s, files)

  unfoldable pub load : ℕ → Bytes → Bytes → Files → Option Session × Files
  load now src dst files = admit now src dst (parsed (files (session_path src dst))) files

  unfoldable pub remove : Bytes → Bytes → Files → Files
  remove src dst = put (session_path src dst) none
