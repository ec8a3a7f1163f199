-- ===== src/Examples/Streaming.antt =====
-- Local copies in blocks of four bytes, with holes in pieces of two.
use bcmr.Prelude.{ℕ, ◌+◌, ◌-◌, ◌*◌, ◌/◌, ◌^◌, ◌≡◌, ◌≢◌, ◌<◌, refl, arith, inr, true, false}
use bcmr.Prelude.{Option, none, some, List, [], ◌∷◌, ◌++◌, length, take, drop, concat, All}
use bcmr.Bytes.Word.{Bytes}
use bcmr.Bytes.Write.{zeros, set_len}
use bcmr.Errors.{ok, err, invalid_input}
use bcmr.Session.{Session}
use bcmr.Session.Resume.{OpenFile, find_resume_offset}
use bcmr.Copy.{never, auto, CopyState, Faults, streaming_copy, checkpoint_interval_blocks}
use bcmr.Copy.Loop.{IsCalm}
use bcmr.Copy.Content.{streaming_copy-file}
use bcmr.Copy.Checkpoint.{IsResumable}
use bcmr.Copy.Tracked.{LastSave}
use bcmr.Copy.Interrupted.{streaming_copy-IsResumable}
use bcmr.Copy.Stale.{streaming_copy-set_len}
use bcmr.Copy.Start.{SessionIntent, any, create_session, create_session-find_resume_offset}
use bcmr.Examples.Toy.{toy_blake3}
use bcmr.Examples.Copies.{session, path_b, source}

abbrev pub calm : Faults
calm = record { now = λ _. 3000; cut = λ _. none; syncs = λ _. true; sets_len = true }

pub calm-IsCalm : IsCalm calm
calm-IsCalm = record { whole = λ _. refl; syncs = λ _. refl; sets_len = refl }

-- The second block is a hole in its first half.
abbrev blocks : List Bytes
blocks = (1 ∷ 2 ∷ 3 ∷ 4 ∷ []) ∷ (0 ∷ 0 ∷ 5 ∷ 6 ∷ []) ∷ []

streaming_copy-file_example :
    (hash : Option Bytes) × (t : CopyState) × (streaming_copy toy_blake3 4 2 calm auto 0 true none
        blocks none []
      ≡ (ok hash, t))
    × (t.file ≡ take 0 [] ++ (concat blocks ++ drop (0 + length (concat blocks)) []))
unfolding concat drop
streaming_copy-file_example =
    streaming_copy-file toy_blake3 4 2 calm calm-IsCalm 0 true none auto blocks [] (omega arith)
      small (omega arith) (inr (record { within = omega arith; blank = empty }))
  where
    small : 0 + length (concat blocks) < 2 ^ 63
    small = omega arith

    empty : drop {A = ℕ} 0 [] ≡ zeros (0 - 0)
    empty = refl

streaming_copy-IsResumable_example :
    (t : CopyState) × (streaming_copy toy_blake3 4 2 calm never
        (1 * 4)
        false
        (some session)
        blocks
        (some invalid_input)
        (9 ∷ 9 ∷ 9 ∷ 9 ∷ 7 ∷ [])
      ≡ (err invalid_input, t))
    × All (IsResumable toy_blake3 4) t.saves
    × ((base : ℕ) × LastSave 1 base t.saves × (1 + 2 < base + checkpoint_interval_blocks))
    × (take (1 * 4 + length (concat blocks)) t.file
        ≡ take (1 * 4) (9 ∷ 9 ∷ 9 ∷ 9 ∷ 7 ∷ []) ++ concat blocks)
streaming_copy-IsResumable_example =
    streaming_copy-IsResumable toy_blake3 4 2 calm calm-IsCalm (omega arith) invalid_input false
      session blocks (9 ∷ 9 ∷ 9 ∷ 9 ∷ 7 ∷ []) (refl, (refl, tt)) (omega arith)

-- The byte 7, behind the place where the copy starts, stays where the source has zeros.
streaming_copy-set_len_example :
    (hash : Option Bytes) × (t : CopyState) × (streaming_copy toy_blake3 4 2 calm auto 1 false
        (some session)
        (zeros 2 ∷ [])
        none
        (9 ∷ 7 ∷ 7 ∷ [])
      ≡ (ok hash, t))
    × (t.file ≡ set_len (1 + 2) (9 ∷ 7 ∷ 7 ∷ []))
streaming_copy-set_len_example =
    streaming_copy-set_len toy_blake3 4 2 calm calm-IsCalm (omega arith) (omega arith)
      (9 ∷ 7 ∷ 7 ∷ []) 1 auto false (some session) (λ e. cc)

stale : set_len (1 + 2) (9 ∷ 7 ∷ 7 ∷ []) ≢ 9 ∷ zeros 2
unfolding set_len take
stale e = cc

abbrev intent : SessionIntent
intent = record { resume = true; append = false; strict = false }

abbrev half_copied : OpenFile
half_copied = record { content = 1 ∷ 2 ∷ 3 ∷ 4 ∷ 5 ∷ []; fails = λ _. false }

create_session-find_resume_offset_example :
    (s : Session) × (create_session 4 3000 source path_b 6
        (find_resume_offset toy_blake3 4 (some half_copied) session)
        intent
        (some session)
      ≡ some s)
    × (length s.block_hashes * 4 ≡ find_resume_offset toy_blake3 4 (some half_copied) session)
    × (s.bytes_written ≡ find_resume_offset toy_blake3 4 (some half_copied) session)
    × (s.block_hashes
        ≡ take
            (find_resume_offset toy_blake3 4 (some half_copied) session / 4)
            session.block_hashes)
unfolding any
create_session-find_resume_offset_example =
    create_session-find_resume_offset toy_blake3 4 3000 (omega arith) source path_b 6 intent
      half_copied session wanted refl
  where
    wanted : any intent ≡ true
    wanted = refl
