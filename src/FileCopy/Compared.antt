-- ===== src/FileCopy/Compared.antt =====
-- `verify_copy` of src/commands/copy.rs, where it succeeds.
use bcmr.Prelude.{ℕ, ◌≡◌, refl, sym, ◌∙◌, ◌⊎◌, inl, inr}
use bcmr.Prelude.{Bool, true, false, ◌&&◌, Bool-cases, Option, none, some}
use bcmr.Prelude.{concat}
use bcmr.Bytes.Word.{Bytes}
use bcmr.Bytes.Equal.{bytes_eq, bytes_eq_iff}
use bcmr.Bytes.Digest.{Blake3}
use bcmr.Errors.{ok}
use bcmr.Errors.Ends.{Ends, Ends-if}
use bcmr.Session.Store.{to_hex}
use bcmr.Resume.{ResumeState, SourceFile, calculate_hash}
use bcmr.FileCopy.Calls.{CopySettings, Disk, Machine}
use bcmr.FileCopy.{check, is_some, content_of, use_atomic}
use bcmr.FileCopy.{src_hash, compare_hashes}
use bcmr.FileCopy.{resolved}

module _ (blake3 : Blake3) (block_size detect_size : ℕ) (session_dir : Bytes) (machine : Machine)
    (src : SourceFile) (dst : Bytes) (opts : CopySettings) where
  -- The destination has the hash of the source, or of what was read of it.
  abbrev pub Verified : Disk → Type 0
  Verified t =
      (c : Bytes) × (t.files dst ≡ some c)
      × ((to_hex (blake3.hash c) ≡ to_hex (blake3.hash src.content))
          ⊎ (to_hex (blake3.hash c) ≡ to_hex (blake3.hash (concat (machine.parts 0)))))

  -- There is no temporary file, and `resolve` has taken the destination for complete.
  abbrev pub Skipped : Disk → Type 0
  Skipped first =
      (use_atomic blake3 block_size detect_size session_dir machine src dst opts ≡ false)
      × (t : Disk) × (state : ResumeState) × (resolved blake3 block_size detect_size session_dir
            machine src dst opts (record first { guard = none })
          ≡ (ok state, t))
      × (state.is_complete ≡ true)

  abbrev pub Any : Disk → Type 0
  Any t = Unit {0}

  -- Without a temporary file, nothing is guarded.
  abbrev pub Idle : Disk → Type 0
  Idle s =
      use_atomic blake3 block_size detect_size session_dir machine src dst opts ≡ false
      → s.guard ≡ none

  abbrev pub Open : Disk → Type 0
  Open s = s.guard ≡ none

  abbrev pub Sound : Disk → Type 0
  Sound s = (s.guard ≡ none) × Verified s

  -- What is known of a hash that was found while the source was read.
  abbrev pub Read : Option Bytes → Type 0
  Read inline = (h : Bytes) → inline ≡ some h → h ≡ blake3.hash (concat (machine.parts 0))

  pub check-kept :
      (b : Bool) (P : Disk → Type 0) (s : Disk) → P s → Ends (λ _ t. P t) Any (check b s)
  unfolding check Ends
  check-kept true P s h = h
  check-kept false P s h = tt

  source_hash :
      (inline : Option Bytes) (a : Bytes)
      → Read inline
      → src_hash blake3 block_size detect_size session_dir machine src dst opts inline ≡ some a
      → (a ≡ to_hex (blake3.hash src.content))
        ⊎ (a ≡ to_hex (blake3.hash (concat (machine.parts 0))))
  unfolding src_hash calculate_hash
  source_hash (some h) a read e = let from = read h refl in inr cc
  source_hash none a read e = elim (Bool-cases src.readable) [
    | inl fine ↦ inl (let found = rw fine at e in cc)
    | inr not_read ↦ let found = rw not_read at e in cc
  ]

  target_hash :
      (there : Bool) (o : Option Bytes) (b : Bytes)
      → calculate_hash blake3 block_size session_dir machine.now (there && is_some o) (content_of o)
        ≡ some b
      → (c : Bytes) × (o ≡ some c) × (b ≡ to_hex (blake3.hash c))
  unfolding calculate_hash is_some content_of
  target_hash true (some c) b e = (c, refl, cc)
  target_hash true none b e = cc
  target_hash false o b e = cc

  pub compare_hashes-Sound :
      (inline a b : Option Bytes) (s : Disk)
      → Read inline
      → Open s
      → a ≡ src_hash blake3 block_size detect_size session_dir machine src dst opts inline
      → b
        ≡ calculate_hash blake3 block_size session_dir machine.now
            (machine.reads_dst && is_some (s.files dst))
            (content_of (s.files dst))
      → Ends
          (λ _ t. Sound t)
          Any
          (compare_hashes blake3 block_size detect_size session_dir machine src dst opts a b s)
  unfolding compare_hashes Ends
  compare_hashes-Sound inline none b s read g ea eb = tt
  compare_hashes-Sound inline (some a) none s read g ea eb = tt
  compare_hashes-Sound inline (some a) (some b) s read g ea eb =
      Ends-if (bytes_eq a b) _ _ (λ _ t. Sound t) Any
        (λ same.
          let equal = (bytes_eq_iff a b).0 same in
          let (c, there, is) = target_hash machine.reads_dst (s.files dst) b (sym eb) in
          let known = source_hash inline a read (sym ea) in
          let joined = sym is ∙ sym equal in
          (
            g,
            (
              c,
              there,
              elim known [ inl whole ↦ inl (joined ∙ whole) | inr parts ↦ inr (joined ∙ parts) ],
            ),
          ))
        (λ differs. tt)
