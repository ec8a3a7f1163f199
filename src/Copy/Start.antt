-- ===== src/Copy/Start.antt =====
-- `create_session` of src/commands/copy_strategies.rs: the session of a copy, with the blocks of
-- the session that it resumes.
use bcmr.Prelude.{
  suc_mul, ℕ, suc, ◌+◌, ◌*◌, ◌/◌, ◌≡◌, ◌≤◌, ◌<◌, refl, sym, ap, ◌∙◌, arith, ◌⊎◌, ltb, lt→ltb,
}
use bcmr.Prelude.{Bool, true, ◌&&◌, ◌||◌, not, Option, none, some, [], length, take}
use bcmr.Prelude.{if◌then◌else◌, length-take_of_le, inl, inr}
use Prim.Native.Nat.{min}
use native.Mathlib.Nat.{mul-div_cancel, zero-div}
use bcmr.Bytes.Word.{Bytes}
use bcmr.Bytes.Digest.{Blake3}
use bcmr.Session
use bcmr.Session.{Session}
use bcmr.Session.Resume.{OpenFile, find_resume_offset, find_resume_offset-IsVerified}
use bcmr.Resume.{SourceFile, modified_secs, unwrap_or_zero}

pub record SessionIntent : Type 0 where
  pub resume : Bool
  pub append : Bool
  pub strict : Bool

unfoldable pub any : SessionIntent → Bool
any intent = intent.resume || intent.append || intent.strict

-- The product does not wrap where the offset is a `u64`.
unfoldable pub keep_blocks : (block_size start_offset : ℕ) → Option Session → Session → Session
keep_blocks block_size start_offset none s = s
keep_blocks block_size start_offset (some loaded) s =
    let keep = min (start_offset / block_size) (length loaded.block_hashes) in
    if ltb 0 start_offset
    then record s {
      block_hashes = take keep loaded.block_hashes;
      bytes_written = keep * block_size;
    }
    else s

unfoldable pub create_session :
    (block_size now : ℕ)
    → SourceFile
    → (dst : Bytes) (file_size start_offset : ℕ) → SessionIntent
    → Option Session
    → Option Session
create_session block_size now src dst file_size start_offset intent loaded =
    if not (any intent && src.has_metadata)
    then none
    else some (
        keep_blocks block_size start_offset loaded (
          Session.new now src.path dst file_size (modified_secs src.modified)
            (unwrap_or_zero src.inode)))

module _ (blake3 : Blake3) (block_size now : ℕ) (progress : 1 ≤ block_size) where
  quotient : (n : ℕ) → (n * block_size + block_size) / block_size ≡ suc n
  quotient n =
      ap (λ (k : ℕ). k / block_size) (sym (suc_mul n block_size)) ∙ mul-div_cancel (suc n) progress

  -- What is kept, where the offset is 0 or the end of one of the blocks.
  kept :
      (start_offset : ℕ) (loaded s : Session)
      → s.block_hashes ≡ []
      → s.bytes_written ≡ 0
      → (start_offset ≡ 0)
        ⊎ ((i : ℕ) × (i < length loaded.block_hashes)
            × (start_offset ≡ i * block_size + block_size))
      → (length (keep_blocks block_size start_offset (some loaded) s).block_hashes * block_size
          ≡ start_offset)
        × ((keep_blocks block_size start_offset (some loaded) s).bytes_written ≡ start_offset)
        × ((keep_blocks block_size start_offset (some loaded) s).block_hashes
            ≡ take (start_offset / block_size) loaded.block_hashes)
  unfolding keep_blocks take
  kept start_offset loaded s fresh unwritten (inl start) =
      rw (start, fresh, zero-div block_size) (omega arith, unwritten, refl)
  kept start_offset loaded s fresh unwritten (inr (i, lt, at)) =
      let taken : length (take (suc i) loaded.block_hashes) ≡ suc i =
        length-take_of_le (suc i) loaded.block_hashes (omega (arith, lt)) in
      let fits : min (suc i) (length loaded.block_hashes) ≡ suc i = omega (arith, lt) in
      let behind : ltb 0 (i * block_size + block_size) ≡ true =
        lt→ltb 0 (i * block_size + block_size) (omega (arith, progress)) in
      rw (at, quotient i, behind, fits)
        (rw taken (suc_mul i block_size), suc_mul i block_size, refl)

  -- Where a copy is resumed with a session that was loaded, the new session has the blocks before
  -- that place, in their order, and no others, and has counted their bytes.
  pub create_session-find_resume_offset :
      (src : SourceFile) (dst : Bytes) (file_size : ℕ) (intent : SessionIntent) (file : OpenFile)
      (loaded : Session)
      → any intent ≡ true
      → src.has_metadata ≡ true
      → (s : Session) × (create_session block_size now src dst file_size
            (find_resume_offset blake3 block_size (some file) loaded)
            intent
            (some loaded)
          ≡ some s)
        × (length s.block_hashes * block_size
            ≡ find_resume_offset blake3 block_size (some file) loaded)
        × (s.bytes_written ≡ find_resume_offset blake3 block_size (some file) loaded)
        × (s.block_hashes
            ≡ take
                (find_resume_offset blake3 block_size (some file) loaded / block_size)
                loaded.block_hashes)
  unfolding create_session Session.new
  create_session-find_resume_offset src dst file_size intent file loaded wanted there =
      let fresh =
        Session.new now src.path dst file_size (modified_secs src.modified)
          (unwrap_or_zero src.inode) in
      let start = find_resume_offset blake3 block_size (some file) loaded in
      let place : (start ≡ 0)
          ⊎ ((i : ℕ) × (i < length loaded.block_hashes) × (start ≡ i * block_size + block_size)) =
        elim (find_resume_offset-IsVerified blake3 block_size file loaded).0 [
          | inl beginning ↦ inl beginning
          | inr (i, lt, at, _) ↦ inr (i, lt, at)
        ] in
      (
        keep_blocks block_size start (some loaded) fresh,
        rw (wanted, there) refl,
        (kept start loaded fresh refl refl place).0,
        (kept start loaded fresh refl refl place).1,
        (kept start loaded fresh refl refl place).2,
      )
