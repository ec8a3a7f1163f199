-- ===== src/Examples/Interrupted.antt =====
-- A copy of six bytes that a failing read interrupts after two, and that is run again with the
-- session that was saved for it.
use bcmr.Prelude.{◌≡◌, refl, arith, true, false, inr, none, some, [], ◌∷◌, take, drop}
use bcmr.Prelude.{concat}
use bcmr.Bytes.Word.{Bytes}
use bcmr.Bytes.Write.{write_at}
use bcmr.Errors.{ok, ◌>>=◌, invalid_input}
use bcmr.Session.{source_matches}
use bcmr.Session.Store.Reload.{load-save}
use bcmr.Copy
use bcmr.Copy.{never, streaming_copy}
use bcmr.Resume.{ResumeState, DestFile, World, modified_secs, unwrap_or_zero, resolve}
use bcmr.Resume.Preallocated.{opened, preallocated, HasSession, interrupted_complete}
use bcmr.Examples.Toy.{toy_blake3}
use bcmr.Examples.Copies.{
  dir, source, session, session-IsSession, dest, files, no_files, no_faults, saved,
}
use bcmr.Examples.Streaming.{calm, calm-IsCalm}

abbrev written_before : Bytes
written_before =
    (streaming_copy toy_blake3 4 2 calm never 0 false none ((1 ∷ 2 ∷ []) ∷ []) (some invalid_input)
      (preallocated 0 6 (opened 0 []))).1.file

-- Four of the six bytes are zeros.
broken : written_before ≡ 1 ∷ 2 ∷ 0 ∷ 0 ∷ 0 ∷ 0 ∷ []
unfolding streaming_copy Copy.begin Copy.copy_loop Copy.copy_part Copy.take_in Copy.callback
    Copy.place Copy.write_all Copy.written Copy.end_block preallocated opened write_at take drop
    ◌>>=◌
broken = refl

abbrev broken_copy : DestFile
broken_copy = dest written_before

abbrev world : World
world = record { sessions = files; reported = [] }

has_session : HasSession toy_blake3 4 dir 3000 source broken_copy 6 world
unfolding source_matches modified_secs unwrap_or_zero
has_session = record {
  session = session;
  found =
      load-save toy_blake3 dir no_faults session no_files 3000 session-IsSession saved
        (omega arith);
  same = refl;
}

interrupted_complete_example :
    (st : ResumeState) × (w' : World) × (resolve toy_blake3 4 dir 3000 source
        (some broken_copy)
        6
        true
        false
        false
        world
      ≡ (ok st, w'))
    × (st.is_complete ≡ true)
unfolding opened concat
interrupted_complete_example =
    interrupted_complete toy_blake3 4 dir 3000 2 calm source broken_copy 0 6 [] false none
      ((1 ∷ 2 ∷ []) ∷ []) invalid_input true false world calm-IsCalm refl refl (omega arith)
      (omega arith) (omega arith) refl (inr (refl, has_session))
