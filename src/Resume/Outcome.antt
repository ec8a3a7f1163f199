-- ===== src/Resume/Outcome.antt =====
-- What a resumed copy may rely on.
use bcmr.Prelude.{ℕ, ◌≤◌, ◌≡◌, ◌⊎◌, inl, inr, ap, arith, Bool, true, false}
use bcmr.Prelude.{not, ◌||◌, Bool-cases}
use bcmr.Prelude.{Option, none, some, length}
use bcmr.Bytes.Word.{Bytes}
use bcmr.Bytes.Digest.{Blake3}
use bcmr.Errors.{Result, ok, bind_inv}
use bcmr.Session.{Session}
use bcmr.Session.Resume.{find_resume_offset, find_resume_offset-IsVerified}
use bcmr.Resume.{Decision, resume, already_complete, overwrite, ResumeState, SourceFile, DestFile}
use bcmr.Resume.{World, lift, fresh}
use bcmr.Resume.{decide, resumed_at, conclude, resolve}

module _ (blake3 : Blake3) (block_size : ℕ) (session_dir : Bytes) (now : ℕ) where
  resumed_at-within :
      (dst : DestFile) (loaded : Option Session)
      → resumed_at blake3 block_size session_dir now dst loaded ≤ length dst.file.content
  unfolding resumed_at find_resume_offset
  resumed_at-within dst none = omega arith
  resumed_at-within dst (some s) = elim (Bool-cases dst.readable) [
    | inl opens ↦ rw opens (
        unfold find_resume_offset in (find_resume_offset-IsVerified blake3 block_size dst.file s).1)
    | inr shut ↦ rw shut (omega arith)
  ]

  -- What is concluded from each decision.
  abbrev Concluded : DestFile → Decision → ResumeState → Type 0
  Concluded dst already_complete st = (st.is_complete ≡ true) × (st.start_offset ≡ 0)
  Concluded dst overwrite st = (st.is_complete ≡ false) × (st.start_offset ≡ 0)
  Concluded dst resume st = (st.is_complete ≡ false) × (st.start_offset ≤ length dst.file.content)

  conclude-ok :
      (dst : DestFile) (file_size : ℕ) (loaded : Option Session) (d : Decision) (w w' : World)
      (st : ResumeState)
      → conclude blake3 block_size session_dir now dst file_size loaded d w ≡ (ok st, w')
      → Concluded dst d st
  unfolding conclude fresh
  conclude-ok dst file_size loaded already_complete w w' st e = (ground arith, ground arith)
  conclude-ok dst file_size loaded overwrite w w' st e = (ground arith, ground arith)
  conclude-ok dst file_size loaded resume w w' st e =
      (ground arith, ground (arith, resumed_at-within dst loaded))

  module _ (src : SourceFile) (dst : DestFile) (file_size : ℕ) where
    resolve-ok :
        (wants_resume strict append : Bool) (w w' : World) (st : ResumeState)
        → resolve blake3 block_size session_dir now src
            (some dst)
            file_size
            wants_resume
            strict
            append
            w
          ≡ (ok st, w')
        → ((st.is_complete ≡ false) × (st.start_offset ≡ 0))
          ⊎ ((loaded : Option Session) × (d : Decision) × (decide blake3 block_size session_dir now
                  src dst file_size strict append loaded
                ≡ ok d)
              × Concluded dst d st)
    unfolding resolve lift fresh
    resolve-ok wants_resume strict append w w' st e =
        elim (Bool-cases (not (wants_resume || append || strict))) [
          | inl idle ↦ inl (ground (arith, idle), ground (arith, idle))
          | inr asked ↦ elim (Bool-cases (not dst.has_metadata)) [
            | inl lost ↦ absurd (ground (arith, asked, lost))
            | inr there ↦
                let (loaded, w1, got, rest) = bind_inv _ _ (rw (asked, there) at e) in
                let (d, w2, decided, last) = bind_inv _ _ rest in
                inr (
                  loaded,
                  d,
                  ap (λ (p : Result Decision × World). p.0) decided,
                  conclude-ok dst file_size loaded d w2 w' st last,
                )
          ]
        ]

    -- A copy never starts behind the end of what the destination holds.
    pub resolve-within :
        (wants_resume strict append : Bool) (w w' : World) (st : ResumeState)
        → resolve blake3 block_size session_dir now src
            (some dst)
            file_size
            wants_resume
            strict
            append
            w
          ≡ (ok st, w')
        → st.start_offset ≤ length dst.file.content
    resolve-within wants_resume strict append w w' st e =
        elim (resolve-ok wants_resume strict append w w' st e) [
          | inl (_, start) ↦ omega (arith, start)
          | inr (loaded, d, _, c) ↦ bound d c
        ]
      where
        bound : (d : Decision) → Concluded dst d st → st.start_offset ≤ length dst.file.content
        bound already_complete (_, start) = omega (arith, start)
        bound overwrite (_, start) = omega (arith, start)
        bound resume (_, le) = le
