-- ===== src/Session/Store/Crash.antt =====
-- A session file is never half written.
use bcmr.Prelude.{◌≡◌, ◌≢◌, ◌⊎◌, inl, inr, refl, sym, ◌∙◌, arith, ap, Bool, true, false, Bool-cases}
use bcmr.Prelude.{Option, none, some, length, length-append, ◌||◌, if◌then◌else◌}
use bcmr.Bytes.Word.{Bytes}
use bcmr.Bytes.Equal.{bytes_eq, bytes_eq_iff, bytes_eq_refl}
use bcmr.Bytes.Digest.{Blake3}
use bcmr.Errors.{Result, ok, err, io, other}
use bcmr.Session.{Session}
use bcmr.Session.Format.{serialize}
use bcmr.Session.Store.{Files, put, Faults, session_stem, session_path, tmp_path, written_part}
use bcmr.Session.Store.{session_extension, tmp_extension, fails_early, save}

pub put_self : (path : Bytes) (c : Option Bytes) (files : Files) → put path c files path ≡ c
unfolding put
put_self path c files = rw (bytes_eq_refl path)

pub put-ne :
    (path p : Bytes) (c : Option Bytes) (files : Files) → p ≢ path → put path c files p ≡ files p
unfolding put
put-ne path p c files ne = elim (Bool-cases (bytes_eq p path)) [
  | inl same ↦ absurd (ne ((bytes_eq_iff p path).0 same))
  | inr differs ↦ rw differs
]

module _ (blake3 : Blake3) (session_dir : Bytes) where
  tmp_path-ne :
      (src dst : Bytes)
      → session_path blake3 session_dir src dst ≢ tmp_path blake3 session_dir src dst
  unfolding session_path tmp_path
  tmp_path-ne src dst e = omega (
    arith,
    ap (λ (p : Bytes). length p) e,
    length-append (session_stem blake3 session_dir src dst) session_extension,
    length-append (session_stem blake3 session_dir src dst) tmp_extension,
  )

  -- What may be found after `save`: `path` is the session file, `tmp` its temporary file.
  abbrev Outcome : (path tmp bytes : Bytes) → Files → Result (Unit {0}) × Files → Type 0
  Outcome path tmp bytes files (r, after) =
      ((p : Bytes) → p ≢ path → p ≢ tmp → after p ≡ files p)
      × (((r ≡ ok tt) × (after path ≡ some bytes) × (after tmp ≡ none))
          ⊎ ((r ≢ ok tt) × (after path ≡ files path)))

  module _ (path tmp bytes : Bytes) (files : Files) (ne : path ≢ tmp) where
    untouched : Outcome path tmp bytes files (err (io other), files)
    untouched = (λ p a b. refl, inr (λ e. cc, refl))

    only_tmp :
        (part : Bytes) → Outcome path tmp bytes files (err (io other), put tmp (some part) files)
    only_tmp part = (
      λ p a b. put-ne tmp p (some part) files b,
      inr (λ e. cc, put-ne tmp path (some part) files ne),
    )

    renamed :
        (part : Bytes)
        → Outcome path tmp bytes files
            (ok tt, put path (some bytes) (put tmp none (put tmp (some part) files)))
    renamed part = (
      λ p a b.
          put-ne path p (some bytes) _ a ∙ put-ne tmp p none _ b ∙ put-ne tmp p (some part) files b,
      inl (
        refl,
        put_self path (some bytes) _,
        put-ne path tmp (some bytes) _ (λ e. ne (sym e)) ∙ put_self tmp none _,
      ),
    )

    choose :
        (early late : Bool) (part : Bytes)
        → Outcome path tmp bytes files (
            if early
            then (err (io other), files)
            else if late
            then (err (io other), put tmp (some part) files)
            else (ok tt, put path (some bytes) (put tmp none (put tmp (some part) files))))
    choose true late part = untouched
    choose false true part = only_tmp part
    choose false false part = renamed part

  save_cases :
      (faults : Faults) (s : Session) (files : Files)
      → Outcome
          (session_path blake3 session_dir s.src_path s.dst_path)
          (tmp_path blake3 session_dir s.src_path s.dst_path)
          (serialize blake3 s)
          files
          (save blake3 session_dir faults s files)
  unfolding save
  save_cases faults s files =
      choose (session_path blake3 session_dir s.src_path s.dst_path)
        (tmp_path blake3 session_dir s.src_path s.dst_path) (serialize blake3 s) files
        (tmp_path-ne s.src_path s.dst_path) (faults.create_dir || faults.create)
        (fails_early faults.written || (faults.sync || faults.rename))
        (written_part faults.written (serialize blake3 s))

  -- Whatever step of `save` fails, the session file holds what it held before, or the whole new
  -- session: the new session, with no temporary file left, exactly if `save` succeeds.
  pub save-atomic :
      (faults : Faults) (s : Session) (files : Files)
      → let path = session_path blake3 session_dir s.src_path s.dst_path in
        let tmp = tmp_path blake3 session_dir s.src_path s.dst_path in
        let (r, after) = save blake3 session_dir faults s files in
        ((r ≡ ok tt) × (after path ≡ some (serialize blake3 s)) × (after tmp ≡ none))
        ⊎ ((r ≢ ok tt) × (after path ≡ files path))
  save-atomic faults s files = (save_cases faults s files).1

  -- `save` touches no file but the session file and its temporary file.
  pub save_frame :
      (faults : Faults) (s : Session) (files : Files) (p : Bytes)
      → p ≢ session_path blake3 session_dir s.src_path s.dst_path
      → p ≢ tmp_path blake3 session_dir s.src_path s.dst_path
      → (save blake3 session_dir faults s files).1 p ≡ files p
  save_frame faults s files = (save_cases faults s files).0
