-- ===== src/Copy/Checkpoint.antt =====
-- What the loop saves, where the destination is written from block to block, can be resumed.
use bcmr.Prelude.{suc_mul, ℕ, suc, ◌+◌, ◌*◌, ◌≡◌, ◌≤◌, refl, sym, ap, ◌∙◌, arith}
use bcmr.Prelude.{suc_mul, false, some, List, [], ◌∷◌, ◌++◌, append_assoc, inl, inr}
use bcmr.Prelude.{suc_mul, length, length-append, take, drop, get_elem?}
use bcmr.Bytes.Word.{Bytes}
use bcmr.Bytes.Write.{take-append, drop-append_at}
use bcmr.Bytes.Digest.{Blake3}
use bcmr.Session.{Session}
use bcmr.Session.Resume.{OpenFile, block, find_resume_offset, IsVerified}
use bcmr.Session.Resume.{find_resume_offset-IsVerified, find_resume_offset-latest}
use bcmr.Copy.{Save}

abbrev readable : Bytes → OpenFile
readable content = record { content = content; fails = λ _. false }

get_elem?-append : (xs : List Bytes) (x : Bytes) → get_elem? (xs ++ (x ∷ [])) (length xs) ≡ some x
get_elem?-append [] x = refl
get_elem?-append (y ∷ ys) x = get_elem?-append ys x

reads :
    (size : ℕ) (content part rest : Bytes) (at : ℕ)
    → length content ≡ at
    → length part ≡ size
    → take size (drop at ((content ++ part) ++ rest)) ≡ part
reads size content part rest at aligned full =
    ap (λ (k : ℕ). take size (drop k ((content ++ part) ++ rest))) (sym aligned)
    ∙ ap (λ (xs : Bytes). take size (drop (length content) xs)) (append_assoc content part rest)
    ∙ ap (λ (xs : Bytes). take size xs) (drop-append_at content (part ++ rest))
    ∙ ap (λ (k : ℕ). take k (part ++ rest)) (sym full)
    ∙ take-append part rest

module _ (blake3 : Blake3) (block_size : ℕ) where
  -- A copy that is resumed with the session, and a destination with the content that was synced,
  -- goes on behind the last block of the session.
  unfoldable pub IsResumable : Save → Type 0
  IsResumable e =
      (content : Bytes) × (e.synced ≡ some content)
      × (find_resume_offset blake3 block_size (some (readable content)) e.session
          ≡ length e.session.block_hashes * block_size)

  pub last_block-IsVerified :
      (content part rest : Bytes) (hashes : List Bytes)
      → length content ≡ length hashes * block_size
      → length part ≡ block_size
      → IsVerified blake3 block_size
          ((content ++ part) ++ rest)
          (hashes ++ (blake3.hash part ∷ []))
          (length hashes)
  last_block-IsVerified content part rest hashes aligned full =
      let size = length-append (content ++ part) rest in
      let size' = length-append content part in
      let read : block blake3 block_size ((content ++ part) ++ rest) (length hashes * block_size)
          ≡ part =
        reads block_size content part rest (length hashes * block_size) aligned full in
      record {
        within = omega (arith, size, size', aligned, full);
        recorded = rw read (get_elem?-append hashes (blake3.hash part));
      }

  below : (k n : ℕ) → k ≤ n → k * block_size ≤ n * block_size
  below k n h = grind arith

  -- The last block is verified.
  pub resumes :
      (content : Bytes) (s : Session) (n : ℕ)
      → length s.block_hashes ≡ suc n
      → IsVerified blake3 block_size content s.block_hashes n
      → find_resume_offset blake3 block_size (some (readable content)) s
        ≡ length s.block_hashes * block_size
  resumes content s n size v =
      let low : n * block_size + block_size
          ≤ find_resume_offset blake3 block_size (some (readable content)) s =
        find_resume_offset-latest blake3 block_size (readable content) s n (λ _. refl)
          (omega (arith, size)) v in
      let next : length s.block_hashes * block_size ≡ n * block_size + block_size =
        rw size (suc_mul n block_size) in
      elim (find_resume_offset-IsVerified blake3 block_size (readable content) s).0 [
        | inl start ↦ omega (arith, start, low, next, size)
        | inr (i, lt, at, _) ↦ omega (arith, at, low, next, below i n (omega (arith, lt, size)))
      ]
