-- ===== src/Copy/Hashed.antt =====
-- The hash of the source that a copy finds on its way is that of what it has read.
use bcmr.Prelude.{ℕ, zero, suc, ◌+◌, ◌^◌, ◌≡◌, refl, sym, ◌∙◌, ltb, leb, not, ◌&&◌, if◌then◌else◌}
use bcmr.Prelude.{
  Bool, true, false, Option, none, some, List, [], ◌∷◌, ◌++◌, append_assoc, append-nil,
}
use bcmr.Prelude.{length, take, drop, concat, ap}
use bcmr.Bytes.Word.{Bytes}
use bcmr.Bytes.Digest.{Blake3}
use bcmr.Errors.{BcmrError, Result, ok, io, other, pure, raise, ◌>>=◌, ◌>>◌, bind_inv}
use bcmr.Errors.Preserves.{Preserves, Preserves-bind, Preserves-if}
use bcmr.Session.{Session}
use bcmr.Copy.{SparseMode, never, always, auto, CopyState, Faults, all_zero, written, write_all}
use bcmr.Copy.{skip_hole, skipped, fill, widen, place_piece, place_pieces, place, take_in, callback}
use bcmr.Copy.{record_block, save_synced, sync_and_save, restart_count, checkpoint, end_block}
use bcmr.Copy.{copy_part, copy_loop, last_block, last_hole, grow, conclude, begin, streaming_copy}
use bcmr.Copy.{checkpoint_interval_blocks, updated, final_hash}

-- The bytes that the hasher was updated with.
abbrev HasRead : Option Bytes → CopyState → Type 0
HasRead o s = s.src_hashed ≡ o

module _ (blake3 : Blake3) (block_size detect_size : ℕ) (faults : Faults) where
  module _ (o : Option Bytes) where
    written-Preserves :
        (part : Bytes) (cut : Option ℕ)
        → Preserves (HasRead o) (written blake3 block_size detect_size faults part cut)
    unfolding written
    written-Preserves part none = record { at = λ s h. h }
    written-Preserves part (some n) = record { at = λ s h. h }

    write_all-Preserves :
        (part : Bytes) → Preserves (HasRead o) (write_all blake3 block_size detect_size faults part)
    unfolding write_all
    write_all-Preserves part = record {
      at = λ s h. (written-Preserves part (faults.cut s.position)).at s h;
    }

    skip_hole-Preserves : Preserves (HasRead o) (skip_hole blake3 block_size detect_size faults)
    unfolding skip_hole skipped
    skip_hole-Preserves = record {
      at = λ s h.
          (Preserves-if (HasRead o) (ltb (s.position + s.pending_hole) (2 ^ 63))
              (skipped blake3 block_size detect_size faults) (raise (io other))
              (record { at = λ t ht. ht }) (record { at = λ t ht. ht })).at
            s h;
    }

    fill-Preserves :
        (piece : Bytes) → Preserves (HasRead o) (fill blake3 block_size detect_size faults piece)
    unfolding fill
    fill-Preserves piece = record {
      at = λ s h.
          (Preserves-if (HasRead o) (ltb 0 s.pending_hole) _ _
              (Preserves-bind (HasRead o) _ _ skip_hole-Preserves (λ _. write_all-Preserves piece))
              (write_all-Preserves piece)).at
            s h;
    }

    place_piece-Preserves :
        (min_block : ℕ) (piece : Bytes)
        → Preserves (HasRead o) (place_piece blake3 block_size detect_size faults min_block piece)
    unfolding place_piece widen
    place_piece-Preserves min_block piece =
        Preserves-if (HasRead o) (leb min_block (length piece) && all_zero piece)
          (widen blake3 block_size detect_size faults (length piece))
          (fill blake3 block_size detect_size faults piece) (record { at = λ s h. h })
          (fill-Preserves piece)

    place_pieces-Preserves :
        (fuel min_block : ℕ) (part : Bytes)
        → Preserves
            (HasRead o)
            (place_pieces blake3 block_size detect_size faults fuel min_block part)
    unfolding place_pieces
    place_pieces-Preserves fuel min_block [] = record { at = λ s h. h }
    place_pieces-Preserves zero min_block (b ∷ bs) = record { at = λ s h. h }
    place_pieces-Preserves (suc fuel) min_block (b ∷ bs) =
        Preserves-bind (HasRead o) _ _ (place_piece-Preserves min_block (take detect_size (b ∷ bs)))
          (λ _. place_pieces-Preserves fuel min_block (drop detect_size (b ∷ bs)))

    place-Preserves :
        (mode : SparseMode) (part : Bytes)
        → Preserves (HasRead o) (place blake3 block_size detect_size faults mode part)
    unfolding place
    place-Preserves never part = write_all-Preserves part
    place-Preserves always part = place_pieces-Preserves (length part) 1 part
    place-Preserves auto part = place_pieces-Preserves (length part) detect_size part

    sync_and_save-Preserves :
        (session : Option Session)
        → Preserves (HasRead o) (sync_and_save blake3 block_size detect_size faults session)
    unfolding sync_and_save save_synced
    sync_and_save-Preserves none = record { at = λ s h. h }
    sync_and_save-Preserves (some x) = record {
      at = λ s h.
          (Preserves-if (HasRead o) (faults.syncs s.file)
              (save_synced blake3 block_size detect_size faults x) (raise (io other))
              (record { at = λ t ht. ht }) (record { at = λ t ht. ht })).at
            s h;
    }

    checkpoint-Preserves : Preserves (HasRead o) (checkpoint blake3 block_size detect_size faults)
    unfolding checkpoint restart_count
    checkpoint-Preserves = record {
      at = λ s h.
          (Preserves-if (HasRead o) (leb checkpoint_interval_blocks s.blocks_since_checkpoint) _ _
              (Preserves-bind (HasRead o) _
                (λ _. restart_count blake3 block_size detect_size faults)
                (sync_and_save-Preserves s.session) (λ _. record { at = λ t ht. ht }))
              (record { at = λ t ht. ht })).at
            s h;
    }

    end_block-Preserves : Preserves (HasRead o) (end_block blake3 block_size detect_size faults)
    unfolding end_block record_block
    end_block-Preserves = record {
      at = λ s h.
          (Preserves-if (HasRead o) (leb block_size s.bytes_in_block) _ _
              (Preserves-bind (HasRead o) (record_block blake3 block_size detect_size faults) _
                (record { at = λ t ht. ht }) (λ _. checkpoint-Preserves))
              (record { at = λ t ht. ht })).at
            s h;
    }

    last_hole-Preserves : Preserves (HasRead o) (last_hole blake3 block_size detect_size faults)
    unfolding last_hole grow
    last_hole-Preserves = record {
      at = λ s h.
          (Preserves-if (HasRead o) (not (ltb 0 s.pending_hole)) (pure tt) _
              (record { at = λ t ht. ht })
              (Preserves-if (HasRead o) faults.sets_len (grow blake3 block_size detect_size faults)
                (raise (io other)) (record { at = λ t ht. ht }) (record { at = λ t ht. ht }))).at
            s h;
    }

  copy_part-HasRead :
      (mode : SparseMode) (part : Bytes) (o : Option Bytes) (s : CopyState)
      → HasRead o s
      → HasRead (updated part o) (copy_part blake3 block_size detect_size faults mode part s).1
  unfolding copy_part take_in callback ◌>>=◌
  copy_part-HasRead mode part o s h =
      (Preserves-bind (HasRead (updated part o))
          (place blake3 block_size detect_size faults mode part)
          (λ _. do
            callback blake3 block_size detect_size faults (length part)
            end_block blake3 block_size detect_size faults)
          (place-Preserves (updated part o) mode part)
          (λ _.
            Preserves-bind (HasRead (updated part o))
              (callback blake3 block_size detect_size faults (length part))
              (λ _. end_block blake3 block_size detect_size faults) (record { at = λ t ht. ht })
              (λ _. end_block-Preserves (updated part o)))).at
        _ (ap (λ (x : Option Bytes). updated part x) h)

  unfoldable read_all : List Bytes → Option Bytes → Option Bytes
  read_all parts none = none
  read_all parts (some text) = some (text ++ concat parts)

  read_all-nil : (o : Option Bytes) → o ≡ read_all [] o
  unfolding read_all concat
  read_all-nil none = refl
  read_all-nil (some text) = ap (λ (x : Bytes). some x) (sym (append-nil text))

  read_all-cons :
      (part : Bytes) (parts : List Bytes) (o : Option Bytes)
      → read_all parts (updated part o) ≡ read_all (part ∷ parts) o
  unfolding read_all updated concat
  read_all-cons part parts none = refl
  read_all-cons part parts (some text) =
      ap (λ (x : Bytes). some x) (append_assoc text part (concat parts))

  copy_loop-HasRead :
      (mode : SparseMode) (ending : Option BcmrError) (parts : List Bytes) (o : Option Bytes)
      (s : CopyState) (a : Unit {0}) (t : CopyState)
      → HasRead o s
      → copy_loop blake3 block_size detect_size faults mode ending parts s ≡ (ok a, t)
      → HasRead (read_all parts o) t
  unfolding copy_loop
  copy_loop-HasRead mode none [] o s a t h e =
      ap (λ (r : Result (Unit {0}) × CopyState). r.1.src_hashed) (sym e) ∙ h ∙ read_all-nil o
  copy_loop-HasRead mode (some x) [] o s a t h e = cc
  copy_loop-HasRead mode ending (part ∷ parts) o s a t h e =
      let (b, u, ran, rest) = bind_inv _ _ e in
      let read =
        ap (λ (r : Result (Unit {0}) × CopyState). r.1.src_hashed) (sym ran)
        ∙ copy_part-HasRead mode part o s h in
      copy_loop-HasRead mode ending parts (updated part o) u a t read rest
      ∙ read_all-cons part parts o

  abbrev first_hasher : Bool → Option Bytes
  first_hasher need_src_hash = if need_src_hash then some [] else none

  concluded :
      (start_offset : ℕ) (need_src_hash : Bool) (parts : List Bytes) (s t : CopyState) (h : Bytes)
      → HasRead (read_all parts (first_hasher need_src_hash)) s
      → conclude blake3 block_size detect_size faults start_offset s ≡ (ok (some h), t)
      → (start_offset ≡ 0) × (h ≡ blake3.hash (concat parts))
  unfolding conclude final_hash read_all
  concluded zero true parts s t h read e =
      let found : final_hash blake3 block_size detect_size faults s.src_hashed ≡ some h = cc in
      let whole = ap (final_hash blake3 block_size detect_size faults) (sym read) ∙ found in
      (refl, cc)
  concluded zero false parts s t h read e =
      let found : final_hash blake3 block_size detect_size faults s.src_hashed ≡ some h = cc in
      let whole = ap (final_hash blake3 block_size detect_size faults) (sym read) ∙ found in
      (refl, cc)
  concluded (suc n) need_src_hash parts s t h read e = cc

  pub streaming_copy-hash :
      (mode : SparseMode) (start_offset : ℕ) (need_src_hash : Bool) (session : Option Session)
      (parts : List Bytes) (ending : Option BcmrError) (file : Bytes) (h : Bytes) (t : CopyState)
      → streaming_copy blake3 block_size detect_size faults mode start_offset need_src_hash session
          parts ending file
        ≡ (ok (some h), t)
      → (start_offset ≡ 0) × (h ≡ blake3.hash (concat parts))
  unfolding streaming_copy last_block begin
  streaming_copy-hash mode start_offset need_src_hash session parts ending file h t e =
      let (a, u, looped, e1) = bind_inv _ _ e in
      let (b, v, blocked, e2) = bind_inv _ _ e1 in
      let (c, w, grown, e3) = bind_inv _ _ e2 in
      let start = first_hasher need_src_hash in
      let read = copy_loop-HasRead mode ending parts start _ a u refl looped in
      let kept = ap (λ (r : Result (Unit {0}) × CopyState). r.1.src_hashed) (sym blocked) ∙ read in
      let last =
        ap (λ (r : Result (Unit {0}) × CopyState). r.1.src_hashed) (sym grown)
        ∙ (last_hole-Preserves (read_all parts start)).at v kept in
      concluded start_offset need_src_hash parts w t h last e3
