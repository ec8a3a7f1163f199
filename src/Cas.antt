-- ===== src/Cas.antt =====
-- src/core/cas.rs: the store of blocks that were received before, each in a file named by its hash.
-- Writing to a temporary file and renaming it is one step here, which may fail.
pub mod Evict
pub mod Addressed
pub mod Grows
use bcmr.Prelude.{ℕ, zero, suc, ◌+◌, ◌-◌, ◌*◌, ◌≤◌, ◌≡◌, refl, arith, leb, ltb, if◌then◌else◌}
use bcmr.Prelude.{Bool, true, false, Option, none, some, List, [], ◌∷◌, length}
use bcmr.Bytes.Word.{Bytes}
use bcmr.Bytes.Equal.{bytes_eq}
use bcmr.Errors.{Result, ok, err, io, other}

-- A file `<hash>.blk` and the time it was modified.
pub record Blob : Type 0 where
  pub hash : Bytes
  pub content : Bytes
  pub mtime : ℕ

-- The files in the order in which `walk_blobs` finds them, which is any order.
abbrev pub Cas : Type 0
Cas = List Blob

unfoldable pub find : Bytes → Cas → Option Blob
find hash [] = none
find hash (blob ∷ cas) = if bytes_eq blob.hash hash then some blob else find hash cas

unfoldable pub is_some : Option Blob → Bool
is_some none = false
is_some (some blob) = true

unfoldable pub has : Bytes → Cas → Bool
has hash cas = is_some (find hash cas)

-- `set_file_mtime(path, now)`
unfoldable pub touch : ℕ → Bytes → Cas → Cas
touch now hash [] = []
touch now hash (blob ∷ cas) =
    let later = touch now hash cas in
    if bytes_eq blob.hash hash then record blob { mtime = now } ∷ cas else blob ∷ later

-- What `read` returns for what it finds.
unfoldable pub served : ℕ → Bytes → Cas → Option Blob → Result Bytes × Cas
served now hash cas none = (err (io other), cas)
served now hash cas (some blob) = (ok blob.content, touch now hash cas)

unfoldable pub read : ℕ → Bytes → Cas → Result Bytes × Cas
read now hash cas = served now hash cas (find hash cas)

unfoldable pub write :
    (now : ℕ) (fails : Bool) → (hash content : Bytes) → Cas → Result (Unit {0}) × Cas
write now fails hash content cas =
    if has hash cas
    then (ok tt, touch now hash cas)
    else if fails
    then (err (io other), cas)
    else (ok tt, record { hash = hash; content = content; mtime = now } ∷ cas)

unfoldable pub total : Cas → ℕ
total [] = 0
total (blob ∷ cas) = length blob.content + total cas

-- `sort_by_key` by the time of modification, which keeps the order of equal keys.
unfoldable pub insert : Blob → Cas → Cas
insert blob [] = blob ∷ []
insert blob (next ∷ cas) =
    let later = insert blob cas in
    if leb blob.mtime next.mtime then blob ∷ next ∷ cas else next ∷ later

unfoldable pub sort : Cas → Cas
sort [] = []
sort (blob ∷ cas) = insert blob (sort cas)

-- What an eviction has freed, and what is left.
pub record Evicted : Type 0 where
  pub freed : ℕ
  pub left : Cas

unfoldable pub keep : Blob → Evicted → Evicted
keep blob e = record e { left = blob ∷ e.left }

-- The loop over the sorted entries; `stuck` are the files that cannot be removed.
unfoldable pub evict_loop : (stuck : Blob → Bool) → (sum limit freed : ℕ) → Cas → Evicted
evict_loop stuck sum limit freed [] = record { freed = freed; left = [] }
evict_loop stuck sum limit freed (blob ∷ cas) =
    let kept = keep blob (evict_loop stuck sum limit freed cas) in
    let removed = evict_loop stuck sum limit (freed + length blob.content) cas in
    if leb (sum - freed) limit
    then record { freed = freed; left = blob ∷ cas }
    else if stuck blob
    then kept
    else removed

unfoldable pub evict_to_cap : (stuck : Blob → Bool) → (limit : ℕ) → Cas → Evicted
evict_to_cap stuck limit cas =
    if leb (total cas) limit
    then record { freed = 0; left = cas }
    else evict_loop stuck (total cas) limit 0 (sort cas)
