-- ===== src/FileCopy/Fresh.antt =====
-- A copy through a temporary file resumes nothing.
use bcmr.Prelude.{ℕ, ◌≡◌, refl, arith, Bool, true, not, ◌&&◌, ◌||◌, Option, none, some, [], length}
use bcmr.Bytes.Word.{Bytes}
use bcmr.Bytes.Digest.{Blake3}
use bcmr.Errors.{ok}
use bcmr.Resume.{SourceFile, DestFile, World, fresh, resolve}
use bcmr.FileCopy.Calls.{CopySettings, Disk, Machine}
use bcmr.FileCopy.{use_atomic, resolved}

nothing_wanted : (a b c : Bool) → (not a && not b && not c) ≡ true → not (a || b || c) ≡ true
nothing_wanted a b c h = ground arith

module _ (blake3 : Blake3) (block_size detect_size : ℕ) (session_dir : Bytes) (machine : Machine)
    (src : SourceFile) (dst : Bytes) (opts : CopySettings)
    (atomic : use_atomic blake3 block_size detect_size session_dir machine src dst opts
      ≡ true) where
  not_resumed : not (opts.resume || opts.append || opts.strict) ≡ true
  unfolding use_atomic
  not_resumed = nothing_wanted opts.resume opts.append opts.strict atomic

  resolve-fresh :
      (o : Option DestFile) (w : World)
      → resolve blake3 block_size session_dir machine.now src o
          (length src.content)
          opts.resume
          opts.strict
          opts.append
          w
        ≡ (ok (fresh none), w)
  unfolding resolve
  resolve-fresh none w = refl
  resolve-fresh (some d) w = rw not_resumed refl

  pub resolved-fresh :
      (s : Disk)
      → resolved blake3 block_size detect_size session_dir machine src dst opts s
        ≡ (ok (fresh none), s)
  unfolding resolved
  resolved-fresh s =
      rw
        (resolve-fresh (machine.dst_file (s.files dst))
          (record { sessions = s.sessions; reported = [] }))
        refl
