-- ===== src/FileCopy/Names.antt =====
-- The name of the temporary file: `temp_path_for` of src/commands/copy/file_copy.rs.
use bcmr.Prelude.{◌+◌, ◌≡◌, ◌≢◌, ap, arith, ◌==◌, if◌then◌else◌, not, ◌&&◌}
use bcmr.Prelude.{[], ◌∷◌, ◌++◌, length, length-append}
use bcmr.Bytes.Word.{Bytes}

-- The directory with its slash, and the name.
unfoldable pub split_name : Bytes → Bytes × Bytes
split_name [] = ([], [])
split_name (c ∷ cs) =
    let (dir, name) = split_name cs in
    if length dir == 0 && not (c == b'/') then ([], c ∷ name) else (c ∷ dir, name)

-- ".bcmr.tmp"
abbrev pub temp_suffix : Bytes
temp_suffix = b'.' ∷ b'b' ∷ b'c' ∷ b'm' ∷ b'r' ∷ b'.' ∷ b't' ∷ b'm' ∷ b'p' ∷ []

-- For a path that ends in a name, which is text.
unfoldable pub temp_path_for : Bytes → Bytes
temp_path_for dst = let (dir, name) = split_name dst in dir ++ (b'.' ∷ (name ++ temp_suffix))

length-split_name :
    (path : Bytes) → length (split_name path).0 + length (split_name path).1 ≡ length path
unfolding split_name
length-split_name [] = omega arith
length-split_name (c ∷ cs) = ground (arith, length-split_name cs)

pub length-temp_path_for : (dst : Bytes) → length (temp_path_for dst) ≡ length dst + 10
unfolding temp_path_for
length-temp_path_for dst =
    let (dir, name) = split_name dst in
    omega (
      arith,
      length-split_name dst,
      length-append dir (b'.' ∷ (name ++ temp_suffix)),
      length-append name temp_suffix,
    )

-- The temporary file is not the destination.
pub temp_path_for-differs : (dst : Bytes) → temp_path_for dst ≢ dst
temp_path_for-differs dst e =
    let size = ap (λ (p : Bytes). length p) e in
    absurd (omega (arith, size, length-temp_path_for dst))
