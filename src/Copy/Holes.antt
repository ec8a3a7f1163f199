-- ===== src/Copy/Holes.antt =====
-- A copy that looks for holes: pieces of zeros are not written, and where the destination has zeros
-- behind the place where the copy starts, the result is the same.
use bcmr.Prelude.{
  ℕ, zero, suc, ◌+◌, ◌-◌, ◌^◌, ◌%◌, ◌≡◌, ◌≤◌, ◌<◌, refl, sym, ap, ◌∙◌, arith, true, false,
}
use bcmr.Prelude.{[], ◌∷◌, ◌++◌, append_assoc, append-nil, inl, inr, Bool-cases}
use bcmr.Prelude.{
  length, length-append, take, drop, take-append-drop, ltb, leb, ltb→le, length-drop,
}
use bcmr.Prelude.{◌==◌, ◌&&◌, not, ==_iff, ◌≢◌}
use mathlib.Core.Path.{subst}
use bcmr.Bytes.Word.{Bytes}
use bcmr.Bytes.Write.{zeros, length-zeros, zeros-add, write_at-zeros, set_len-zeros}
use bcmr.Bytes.Digest.{Blake3}
use bcmr.Errors.Runs.{Runs, Runs-ok, Runs-bind, Runs-if}
use bcmr.Copy.{SparseMode, never, always, auto, CopyState, Faults, all_zero, written, write_all}
use bcmr.Copy.{skipped, skip_hole, fill, widen, place_piece, place_pieces, place, grow, last_hole}
use bcmr.Copy.Loop.{Same, IsCalm}

all_zero_lem : (bs : Bytes) → all_zero bs ≡ true → bs ≡ zeros (length bs)
unfolding all_zero
all_zero_lem [] h = refl
all_zero_lem (b ∷ bs) h = elim (Bool-cases (b == 0)) [
  | inl is ↦
      let rest : all_zero bs ≡ true = ground (arith, is) in
      let nought : b ≡ 0 = (==_iff b 0).0 is in
      rw nought (ap (λ (zs : Bytes). 0 ∷ zs) (all_zero_lem bs rest))
  | inr isnt ↦ absurd (ground (arith, isnt))
]

-- The destination has `front` and zeros; with the hole that is pending, `content` was taken in.
pub record IsSparse (limit : ℕ) (content : Bytes) (st : CopyState) : Type 0 where
  pub front : Bytes
  pub tail : ℕ
  pub file : st.file ≡ front ++ zeros tail
  pub position : st.position ≡ length front
  pub taken : content ≡ front ++ zeros st.pending_hole
  pub within : length front + tail ≤ limit

pub IsSparse-Same :
    (limit : ℕ) (content : Bytes) (s t : CopyState)
    → Same s t
    → IsSparse limit content s
    → IsSparse limit content t
IsSparse-Same limit content s t same h = record {
  front = h.front;
  tail = h.tail;
  file = same.file ∙ h.file;
  position = same.position ∙ h.position;
  taken = rw same.pending_hole h.taken;
  within = h.within;
}

-- The hole has been skipped.
record IsPlaced (limit : ℕ) (content : Bytes) (st : CopyState) : Type 0 where
  front : Bytes
  tail : ℕ
  hole : ℕ
  file : st.file ≡ front ++ zeros tail
  position : st.position ≡ length front + hole
  taken : content ≡ front ++ zeros hole
  pending_hole : st.pending_hole ≡ 0
  within : length front + tail ≤ limit

module _ (blake3 : Blake3) (block_size detect_size : ℕ) (faults : Faults) (calm : IsCalm faults)
    (limit : ℕ) (room : limit < 2 ^ 63) where
  write_all-IsSparse :
      (content part : Bytes) (st : CopyState)
      → length content + length part ≤ limit
      → IsPlaced limit content st
      → Runs
          (write_all blake3 block_size detect_size faults part st)
          (IsSparse limit (content ++ part))
  unfolding write_all written
  write_all-IsSparse content part st fits h =
      let size = length-append h.front (zeros h.hole) in
      let holes = length-zeros h.hole in
      let whole : length content ≡ length h.front + h.hole =
        ap (λ (c : Bytes). length c) h.taken ∙ omega (arith, size, holes) in
      rw (calm.whole st.position) (
        Runs-ok tt _ (IsSparse limit (content ++ part)) (record {
          front = content ++ part;
          tail = h.tail - (h.hole + length part);
          file = rw (h.file, h.position, write_at-zeros h.front part h.tail h.hole, h.taken) refl;
          position = omega (arith, h.position, length-append content part, whole);
          taken = rw h.pending_hole (sym (append-nil (content ++ part)));
          within = omega (arith, h.within, length-append content part, whole, fits);
        }))

  fill-IsSparse :
      (content part : Bytes) (st : CopyState)
      → length content + length part ≤ limit
      → IsSparse limit content st
      → Runs (fill blake3 block_size detect_size faults part st) (IsSparse limit (content ++ part))
  unfolding fill skip_hole skipped
  fill-IsSparse content part st fits h =
      let size = length-append h.front (zeros st.pending_hole) in
      let holes = length-zeros st.pending_hole in
      let whole : length content ≡ length h.front + st.pending_hole =
        ap (λ (c : Bytes). length c) h.taken ∙ omega (arith, size, holes) in
      Runs-if (ltb 0 st.pending_hole) _ _ st (IsSparse limit (content ++ part))
        (λ e.
          Runs-bind _ _ st (IsPlaced limit content) (IsSparse limit (content ++ part))
            (Runs-if (ltb (st.position + st.pending_hole) (2 ^ 63)) _ _ st (IsPlaced limit content)
              (λ _. Runs-ok tt _ (IsPlaced limit content) (record {
                front = h.front;
                tail = h.tail;
                hole = st.pending_hole;
                file = h.file;
                position = omega (arith, h.position);
                taken = h.taken;
                pending_hole = refl;
                within = h.within;
              }))
              (λ far. absurd (omega (arith, ltb→le _ _ far, h.position, whole, fits, room))))
            (λ _ t ready. write_all-IsSparse content part t fits ready))
        (λ e. write_all-IsSparse content part st fits (record {
          front = h.front;
          tail = h.tail;
          hole = st.pending_hole;
          file = h.file;
          position = omega (arith, h.position, ltb→le _ _ e);
          taken = h.taken;
          pending_hole = omega (arith, ltb→le _ _ e);
          within = h.within;
        }))

  place_piece-IsSparse :
      (min_block : ℕ) (content piece : Bytes) (st : CopyState)
      → length content + length piece ≤ limit
      → IsSparse limit content st
      → Runs
          (place_piece blake3 block_size detect_size faults min_block piece st)
          (IsSparse limit (content ++ piece))
  unfolding place_piece widen
  place_piece-IsSparse min_block content piece st fits h =
      let now = IsSparse limit (content ++ piece) in
      Runs-if (leb min_block (length piece) && all_zero piece) _ _ st now
        (λ e.
          let blank : all_zero piece ≡ true = ground (arith, e) in
          let size = length-append h.front (zeros st.pending_hole) in
          let whole : length content ≡ length h.front + st.pending_hole =
            ap (λ (c : Bytes). length c) h.taken
            ∙ omega (arith, size, length-zeros st.pending_hole) in
          let sum : (st.pending_hole + length piece) % 2 ^ 64 ≡ st.pending_hole + length piece =
            omega (arith, whole, fits, room) in
          Runs-ok tt _ now (record {
            front = h.front;
            tail = h.tail;
            file = h.file;
            position = h.position;
            taken =
                rw sum (
                  widened content h.front piece st.pending_hole h.taken (all_zero_lem piece blank));
            within = h.within;
          }))
        (λ e. fill-IsSparse content piece st fits h)
    where
      widened :
          (content front piece : Bytes) (hole : ℕ)
          → content ≡ front ++ zeros hole
          → piece ≡ zeros (length piece)
          → content ++ piece ≡ front ++ zeros (hole + length piece)
      widened content front piece hole e blank =
          ap (λ (c : Bytes). c ++ piece) e
          ∙ append_assoc front (zeros hole) piece
          ∙ ap (λ (p : Bytes). front ++ (zeros hole ++ p)) blank
          ∙ ap (λ (p : Bytes). front ++ p) (zeros-add hole (length piece))

  module _ (progress : 1 ≤ detect_size) where
    -- The rounds are enough.
    place_pieces-IsSparse :
        (fuel min_block : ℕ) (content part : Bytes) (st : CopyState)
        → length part ≤ fuel
        → length content + length part ≤ limit
        → IsSparse limit content st
        → Runs
            (place_pieces blake3 block_size detect_size faults fuel min_block part st)
            (IsSparse limit (content ++ part))
    unfolding place_pieces
    place_pieces-IsSparse fuel min_block content [] st enough fits h =
        Runs-ok tt st _ (subst (λ (c : Bytes). IsSparse limit c st) (sym (append-nil content)) h)
    place_pieces-IsSparse zero min_block content (b ∷ bs) st enough fits h = absurd (omega arith)
    place_pieces-IsSparse (suc fuel) min_block content (b ∷ bs) st enough fits h =
        let piece = take detect_size (b ∷ bs) in
        let rest = drop detect_size (b ∷ bs) in
        let parts = take-append-drop detect_size (b ∷ bs) in
        let shorter = length-drop detect_size (b ∷ bs) in
        let size : length piece + length rest ≡ length (b ∷ bs) =
          sym (length-append piece rest) ∙ ap (λ (c : Bytes). length c) parts in
        let grown = length-append content piece in
        let all : (content ++ piece) ++ rest ≡ content ++ (b ∷ bs) =
          append_assoc content piece rest ∙ ap (λ (c : Bytes). content ++ c) parts in
        Runs-bind _ _ st (IsSparse limit (content ++ piece)) (IsSparse limit (content ++ (b ∷ bs)))
          (place_piece-IsSparse min_block content piece st (omega (arith, size, fits)) h)
          (λ _ t ht.
            subst
              (λ (c : Bytes).
                Runs (place_pieces blake3 block_size detect_size faults fuel min_block rest t)
                  (IsSparse limit c))
              all
              (place_pieces-IsSparse fuel min_block (content ++ piece) rest t
                (omega (arith, shorter, progress, enough)) (omega (arith, grown, size, fits)) ht))

    pub place-IsSparse :
        (mode : SparseMode) (content part : Bytes) (st : CopyState)
        → mode ≢ never
        → length content + length part ≤ limit
        → IsSparse limit content st
        → Runs
            (place blake3 block_size detect_size faults mode part st)
            (IsSparse limit (content ++ part))
    unfolding place
    place-IsSparse never content part st sparse fits h = absurd (sparse refl)
    place-IsSparse always content part st sparse fits h =
        place_pieces-IsSparse (length part) 1 content part st (omega arith) fits h
    place-IsSparse auto content part st sparse fits h =
        place_pieces-IsSparse (length part) detect_size content part st (omega arith) fits h

  -- The hole at the end.
  pub last_hole-IsSparse :
      (content : Bytes) (st : CopyState)
      → length content ≡ limit
      → IsSparse limit content st
      → Runs (last_hole blake3 block_size detect_size faults st) (λ t. t.file ≡ content)
  unfolding last_hole grow
  last_hole-IsSparse content st total h =
      let Final : CopyState → Type 0 = λ t. t.file ≡ content in
      let size = length-append h.front (zeros st.pending_hole) in
      let whole : length content ≡ length h.front + st.pending_hole =
        ap (λ (c : Bytes). length c) h.taken ∙ omega (arith, size, length-zeros st.pending_hole) in
      Runs-if (not (ltb 0 st.pending_hole)) _ _ st Final
        (λ e.
          let shut : ltb 0 st.pending_hole ≡ false = ground (arith, e) in
          let no_hole : st.pending_hole ≡ 0 = omega (arith, ltb→le _ _ shut) in
          let no_tail : h.tail ≡ 0 = omega (arith, h.within, whole, total, no_hole) in
          Runs-ok tt st Final
            (h.file ∙ ap (λ (n : ℕ). h.front ++ zeros n) (no_tail ∙ sym no_hole) ∙ sym h.taken))
        (λ _.
          Runs-if faults.sets_len _ _ st Final
            (λ _. Runs-ok tt _ Final (
              rw (h.file, h.position) (set_len-zeros h.front h.tail st.pending_hole) ∙ sym h.taken))
            (λ e. absurd (cc (calm.sets_len))))
