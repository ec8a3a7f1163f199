-- ===== src/Copy.antt =====
-- The loop of src/commands/copy_strategies.rs that copies a local file, with what it records for a
-- later run. The parts that `read` returns are a list; the sizes of a block and of the pieces that
-- are looked at for zeros are parameters, 4 MiB and 4096 in the source. `posix_fadvise` has no
-- effect on the result.
pub mod Loop
pub mod Written
pub mod Holes
pub mod Content
pub mod Calmed
pub mod Checkpoint
pub mod Tracked
pub mod Interrupted
pub mod Stale
pub mod Hashed
pub mod Start
use bcmr.Prelude.{ℕ, zero, suc, ◌+◌, ◌-◌, ◌*◌, ◌/◌, ◌%◌, ◌^◌, ltb, leb, ◌==◌, if◌then◌else◌, not}
use bcmr.Prelude.{Bool, true, false, ◌&&◌, ◌||◌, Option, none, some, List, [], ◌∷◌, ◌++◌, length}
use bcmr.Prelude.{take, drop}
use bcmr.Bytes.Word.{Bytes}
use bcmr.Bytes.Write.{write_at, set_len}
use bcmr.Bytes.Digest.{Blake3}
use bcmr.Errors.{BcmrError, Result, ok, err, io, other, Exec, pure, raise, ◌>>=◌, ◌>>◌}
use bcmr.Session
use bcmr.Session.{Session, add_block, set_src_hash}

pub data SparseMode : Type 0 where
  never always auto : SparseMode

-- A call of `save`: the session, and the content of the destination when it was last synced.
pub record Save : Type 0 where
  pub synced : Option Bytes
  pub session : Session

-- `file` is the content of the destination and `position` the place of its next write;
-- `src_hashed` and `block_hashed` are what the two hashers were updated with. The calls of
-- `save` and of `callback` are listed, the first one first.
pub record CopyState : Type 0 where
  pub file : Bytes
  pub position : ℕ
  pub pending_hole : ℕ
  pub src_hashed : Option Bytes
  pub block_hashed : Option Bytes
  pub bytes_in_block : ℕ
  pub blocks_since_checkpoint : ℕ
  pub session : Option Session
  pub synced : Option Bytes
  pub saves : List Save
  pub reported : List ℕ

-- What happens meanwhile: the time at which a session has so many blocks; how much is written where
-- a write fails; whether a sync at such a length and the last `set_len` fail.
pub record Faults : Type 0 where
  pub now : ℕ → ℕ
  pub cut : ℕ → Option ℕ
  pub syncs : Bytes → Bool
  pub sets_len : Bool

abbrev pub sparse_detect_size : ℕ
sparse_detect_size = 4096

abbrev pub checkpoint_interval_blocks : ℕ
checkpoint_interval_blocks = 16

-- `chunk.iter().all(|&b| b == 0)`
unfoldable pub all_zero : Bytes → Bool
all_zero [] = true
all_zero (b ∷ bs) = b == 0 && all_zero bs

unfoldable pub updated : Bytes → Option Bytes → Option Bytes
updated part none = none
updated part (some text) = some (text ++ part)

module _ (blake3 : Blake3) (block_size detect_size : ℕ) (faults : Faults) where
  -- `dst_file.write_all(part)`
  unfoldable pub written : Bytes → Option ℕ → Exec CopyState (Unit {0})
  written part none st = (
    ok tt,
    record st { file = write_at st.position part st.file; position = st.position + length part },
  )
  written part (some n) st =
      (err (io other), record st { file = write_at st.position (take n part) st.file })

  unfoldable pub write_all : Bytes → Exec CopyState (Unit {0})
  write_all part st = written part (faults.cut st.position) st

  unfoldable pub skipped : Exec CopyState (Unit {0})
  skipped st = (ok tt, record st { position = st.position + st.pending_hole; pending_hole = 0 })

  -- `dst_file.seek(Current(pending_hole))`; the offset is an `i64`.
  unfoldable pub skip_hole : Exec CopyState (Unit {0})
  skip_hole st =
      (if ltb (st.position + st.pending_hole) (2 ^ 63) then skipped else raise (io other)) st

  unfoldable pub fill : Bytes → Exec CopyState (Unit {0})
  fill piece st =
      (if ltb 0 st.pending_hole then (do skip_hole; write_all piece) else write_all piece) st

  unfoldable pub widen : ℕ → Exec CopyState (Unit {0})
  widen n st = (ok tt, record st { pending_hole = (st.pending_hole + n) % 2 ^ 64 })

  -- One round of the inner loop.
  unfoldable pub place_piece : (min_block : ℕ) → Bytes → Exec CopyState (Unit {0})
  place_piece min_block piece st =
      (if leb min_block (length piece) && all_zero piece then widen (length piece) else fill piece)
        st

  -- The inner loop, over what is left of the part; it makes at most as many rounds as the part has
  -- bytes.
  unfoldable pub place_pieces : (fuel min_block : ℕ) → Bytes → Exec CopyState (Unit {0})
  place_pieces fuel min_block [] = pure tt
  place_pieces zero min_block (b ∷ bs) = pure tt
  place_pieces (suc fuel) min_block (b ∷ bs) = do
    place_piece min_block (take detect_size (b ∷ bs))
    place_pieces fuel min_block (drop detect_size (b ∷ bs))

  unfoldable pub place : SparseMode → Bytes → Exec CopyState (Unit {0})
  place never part = write_all part
  place always part = place_pieces (length part) 1 part
  place auto part = place_pieces (length part) detect_size part

  unfoldable pub take_in : Bytes → Exec CopyState (Unit {0})
  take_in part st = (
    ok tt,
    record st {
      src_hashed = updated part st.src_hashed;
      block_hashed = updated part st.block_hashed;
      bytes_in_block = (st.bytes_in_block + length part) % 2 ^ 64;
    },
  )

  unfoldable pub callback : ℕ → Exec CopyState (Unit {0})
  callback n st = (ok tt, record st { reported = st.reported ++ (n ∷ []) })

  -- The session with one more block, where there are a hasher and a session.
  unfoldable pub with_block : ℕ → Option Bytes → Option Session → Option Session
  with_block size (some text) (some s) =
      some (add_block (faults.now (length s.block_hashes)) (blake3.hash text) size s)
  with_block size _ session = session

  unfoldable pub restarted : Option Bytes → Option Session → Option Bytes
  restarted (some text) (some s) = some []
  restarted hasher _ = hasher

  unfoldable pub record_block : Exec CopyState (Unit {0})
  record_block st = (
    ok tt,
    record st {
      session = with_block block_size st.block_hashed st.session;
      block_hashed = restarted st.block_hashed st.session;
      bytes_in_block = st.bytes_in_block - block_size;
      blocks_since_checkpoint = st.blocks_since_checkpoint + 1;
    },
  )

  unfoldable pub save_synced : Session → Exec CopyState (Unit {0})
  save_synced s st = (
    ok tt,
    record st {
      synced = some st.file;
      saves = st.saves ++ (record { synced = some st.file; session = s } ∷ []);
    },
  )

  -- `durable_sync(&dst_file)?`, and `save`, whose result is not looked at.
  unfoldable pub sync_and_save : Option Session → Exec CopyState (Unit {0})
  sync_and_save none st = (ok tt, st)
  sync_and_save (some s) st = (if faults.syncs st.file then save_synced s else raise (io other)) st

  unfoldable pub restart_count : Exec CopyState (Unit {0})
  restart_count st = (ok tt, record st { blocks_since_checkpoint = 0 })

  unfoldable pub checkpoint : Exec CopyState (Unit {0})
  checkpoint st =
      (if leb checkpoint_interval_blocks st.blocks_since_checkpoint
          then (do sync_and_save st.session; restart_count)
          else pure tt)
        st

  unfoldable pub end_block : Exec CopyState (Unit {0})
  end_block st =
      (if leb block_size st.bytes_in_block then (do record_block; checkpoint) else pure tt) st

  -- One round of the loop.
  unfoldable pub copy_part : SparseMode → Bytes → Exec CopyState (Unit {0})
  copy_part mode part = do take_in part; place mode part; callback (length part); end_block

  -- `ending` is the error of the last `read`, or `none` where it returned 0.
  unfoldable pub copy_loop :
      SparseMode → (ending : Option BcmrError) → List Bytes → Exec CopyState (Unit {0})
  copy_loop mode none [] = pure tt
  copy_loop mode (some e) [] = raise e
  copy_loop mode ending (part ∷ parts) = do copy_part mode part; copy_loop mode ending parts

  unfoldable pub last_block : Exec CopyState (Unit {0})
  last_block st =
      let session = with_block st.bytes_in_block st.block_hashed st.session in
      (ok tt, record st { session = if ltb 0 st.bytes_in_block then session else st.session })

  unfoldable pub grow : Exec CopyState (Unit {0})
  grow st = (ok tt, record st { file = set_len (st.position + st.pending_hole) st.file })

  unfoldable pub last_hole : Exec CopyState (Unit {0})
  last_hole st =
      (if not (ltb 0 st.pending_hole)
          then pure tt
          else if faults.sets_len
          then grow
          else raise (io other))
        st

  unfoldable pub final_hash : Option Bytes → Option Bytes
  final_hash none = none
  final_hash (some text) = some (blake3.hash text)

  unfoldable pub save_hashed : Option Session → Option Bytes → CopyState → CopyState
  save_hashed (some s) (some h) st =
      let hashed = set_src_hash h s in
      record st {
        session = some hashed;
        saves = st.saves ++ (record { synced = st.synced; session = hashed } ∷ []);
      }
  save_hashed _ _ st = st

  -- The hash of the source, which is known where the copy started at its beginning.
  unfoldable pub conclude : (start_offset : ℕ) → Exec CopyState (Option Bytes)
  conclude zero st =
      let hash = final_hash st.src_hashed in (ok hash, save_hashed st.session hash st)
  conclude (suc n) st = (ok none, st)

  unfoldable pub hasher_for : Option Session → Option Bytes
  hasher_for none = none
  hasher_for (some s) = some []

  unfoldable pub begin :
      (start_offset : ℕ) (need_src_hash : Bool) → Option Session → Bytes → CopyState
  begin start_offset need_src_hash session file = record {
    file = file;
    position = start_offset;
    pending_hole = 0;
    src_hashed = if need_src_hash then some [] else none;
    block_hashed = hasher_for session;
    bytes_in_block = 0;
    blocks_since_checkpoint = 0;
    session = session;
    synced = none;
    saves = [];
    reported = [];
  }

  -- `streaming_copy_sync`; the destination has been opened, and its position is `start_offset`.
  unfoldable pub streaming_copy :
      SparseMode
      → (start_offset : ℕ) (need_src_hash : Bool) → Option Session
      → (parts : List Bytes) (ending : Option BcmrError) → (file : Bytes)
      → Result (Option Bytes) × CopyState
  streaming_copy mode start_offset need_src_hash session parts ending file =
      (do copy_loop mode ending parts; last_block; last_hole; conclude start_offset)
        (begin start_offset need_src_hash session file)
