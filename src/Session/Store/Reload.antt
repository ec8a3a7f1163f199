-- ===== src/Session/Store/Reload.antt =====
-- What `load` returns, and what it does to the files.
use bcmr.Prelude.{ℕ, ◌+◌, ◌-◌, ◌≤◌, ◌≡◌, ◌≢◌, inl, inr, refl, arith, true}
use bcmr.Prelude.{Option, none, some, Bool-cases, ltb, ltb→le, le→ltb, ◌||◌, not}
use mathlib.Core.Path.{subst}
use bcmr.Bytes.Word.{Bytes}
use bcmr.Bytes.Digest.{Blake3}
use bcmr.Errors.{ok}
use bcmr.Paths.{path_eq, path_eq_refl}
use bcmr.Session.{Session, IsSession, session_max_age_secs}
use bcmr.Session.RoundTrip.{deserialize-serialize}
use bcmr.Session.Store.{Files, Faults, session_path, save, parsed, admit, load}
use bcmr.Session.Store.Crash.{save-atomic, put-ne}

module _ (blake3 : Blake3) (session_dir : Bytes) where
  abbrev Admitted : ℕ → (src dst : Bytes) → Files → Option Session → Option Session × Files → Type 0
  Admitted now src dst files found (o, after) =
      ((p : Bytes) → p ≢ session_path blake3 session_dir src dst → after p ≡ files p)
      × ((s : Session)
          → o ≡ some s
          → (after ≡ files)
            × (found ≡ some s)
            × (now ≤ s.updated_at + session_max_age_secs)
            × (path_eq s.src_path src ≡ true)
            × (path_eq s.dst_path dst ≡ true))

  admit_cases :
      (now : ℕ) (src dst : Bytes) (found : Option Session) (files : Files)
      → Admitted now src dst files found (admit blake3 session_dir now src dst found files)
  unfolding admit
  admit_cases now src dst none files = (λ p ne. refl, λ s e. cc)
  admit_cases now src dst (some s) files =
      elim (Bool-cases (ltb session_max_age_secs (now - s.updated_at))) [
        | inl old ↦ rw old (λ p ne. put-ne _ p none files ne, λ s' e. cc)
        | inr fresh ↦
            elim (Bool-cases (not (path_eq s.src_path src) || not (path_eq s.dst_path dst))) [
              | inl foreign ↦ rw (fresh, foreign) (λ p ne. refl, λ s' e. cc)
              | inr ours ↦
                  rw (fresh, ours)
                    (
                      λ p ne. refl,
                      λ s' e.
                          (let same : s ≡ s' = cc in
                            (
                              refl,
                              e,
                              subst (λ (t : Session). now ≤ t.updated_at + session_max_age_secs)
                                  same (omega (arith, ltb→le _ _ fresh)),
                              subst (λ (t : Session). path_eq t.src_path src ≡ true) same
                                  (ground (arith, ours)),
                              subst (λ (t : Session). path_eq t.dst_path dst ≡ true) same
                                  (ground (arith, ours)),
                            )),
                    )
            ]
      ]

  load_cases :
      (now : ℕ) (src dst : Bytes) (files : Files)
      → Admitted now src dst files
          (parsed blake3 session_dir (files (session_path blake3 session_dir src dst)))
          (load blake3 session_dir now src dst files)
  unfolding load
  load_cases now src dst files =
      admit_cases now src dst
        (parsed blake3 session_dir (files (session_path blake3 session_dir src dst))) files

  -- A session that is loaded is what its file holds, it is for these two paths, and it was updated
  -- at most seven days before; the files stay as they are.
  pub load-some :
      (now : ℕ) (src dst : Bytes) (files : Files) (s : Session)
      → (load blake3 session_dir now src dst files).0 ≡ some s
      → ((load blake3 session_dir now src dst files).1 ≡ files)
        × (parsed blake3 session_dir (files (session_path blake3 session_dir src dst)) ≡ some s)
        × (now ≤ s.updated_at + session_max_age_secs)
        × (path_eq s.src_path src ≡ true)
        × (path_eq s.dst_path dst ≡ true)
  load-some now src dst files = (load_cases now src dst files).1

  -- `load` touches no file but the session file, whether it returns a session or not.
  pub load_frame :
      (now : ℕ) (src dst : Bytes) (files : Files) (p : Bytes)
      → p ≢ session_path blake3 session_dir src dst
      → (load blake3 session_dir now src dst files).1 p ≡ files p
  load_frame now src dst files = (load_cases now src dst files).0

  -- After a `save` that succeeds, `load` for the same two paths returns the session until seven days
  -- after its last update.
  pub load-save :
      (faults : Faults) (s : Session) (files : Files) (now : ℕ)
      → IsSession s
      → (save blake3 session_dir faults s files).0 ≡ ok tt
      → now ≤ s.updated_at + session_max_age_secs
      → (load blake3 session_dir now s.src_path s.dst_path
          (save blake3 session_dir faults s files).1).0
        ≡ some s
  unfolding load parsed admit
  load-save faults s files now h saved recent =
      elim (save-atomic blake3 session_dir faults s files) [
        | inl (_, there, _) ↦ rw there (
            rw (deserialize-serialize blake3 s h) (
              rw
                (
                  le→ltb session_max_age_secs (now - s.updated_at) (omega arith),
                  path_eq_refl s.src_path,
                  path_eq_refl s.dst_path,
                )
                refl))
        | inr (failed, _) ↦ absurd (failed saved)
      ]
