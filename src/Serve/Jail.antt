-- ===== src/Serve/Jail.antt =====
-- `validate_path` of src/commands/serve.rs: a path that a client names must lie below the root of
-- the server. A path is the list of its components, and what the file system says is an argument.
pub mod Inside
use bcmr.Prelude.{◌≡◌, ◌≢◌, refl, sym, ap, ◌∙◌, arith, Bool, true, false, ◌&&◌, ◌||◌, not, ◌==◌}
use bcmr.Prelude.{
  Option, none, some, List, [], ◌∷◌, ◌++◌, append_assoc, append-nil, All, All-append,
}
use bcmr.Prelude.{if◌then◌else◌, Bool-cases, Option-cases, inl, inr}
use mathlib.Core.Path.{subst}
use bcmr.Bytes.Word.{Bytes}
use bcmr.Bytes.Equal.{bytes_eq, bytes_eq_iff}
use bcmr.Paths.{Component, root_dir, cur_dir, parent_dir, normal, components, component_eq}
use bcmr.Errors.{Result, ok, err, io, other, invalid_input}

-- `Path::exists`, `fs::canonicalize` and `env::current_dir`.
pub record Disk : Type 0 where
  pub exists : List Component → Bool
  pub canonicalize : List Component → Option (List Component)
  pub current_dir : Option (List Component)

-- `raw.contains('\\0')`
unfoldable pub has_nul : Bytes → Bool
has_nul [] = false
has_nul (b ∷ bs) = b == 0 || has_nul bs

unfoldable pub climbs : List Component → Bool
climbs [] = false
climbs (parent_dir ∷ cs) = true
climbs (_ ∷ cs) = climbs cs

-- `path.starts_with(root)`
unfoldable pub starts_with : List Component → List Component → Bool
starts_with path [] = true
starts_with [] (r ∷ root) = false
starts_with (c ∷ path) (r ∷ root) = component_eq c r && starts_with path root

unfoldable pub reversed : List Component → List Component → List Component
reversed done [] = done
reversed done (c ∷ cs) = reversed (c ∷ done) cs

unfoldable pub or_fails : Option (List Component) → Result (List Component)
or_fails none = err (io other)
or_fails (some p) = ok p

unfoldable pub pushed : Result (List Component) → List Component → Result (List Component)
pushed (err e) tail = err e
pushed (ok out) tail = ok (out ++ tail)

module _ (disk : Disk) where
  -- Where the loop ends, with the components of the ancestor, and the names that were taken off.
  unfoldable pub ancestor_end : (ancestor tail : List Component) → Result (List Component)
  ancestor_end [] tail = pushed (or_fails disk.current_dir) tail
  ancestor_end (c ∷ cs) tail =
      if disk.exists (c ∷ cs)
      then pushed (or_fails (disk.canonicalize (c ∷ cs))) tail
      else err invalid_input

  -- The loop, over the components of the ancestor, the last one first.
  unfoldable pub climb : (up tail : List Component) → Result (List Component)
  climb [] tail = ancestor_end [] tail
  climb (normal name ∷ up) tail =
      let ancestor = reversed [] (normal name ∷ up) in
      let later = climb up (normal name ∷ tail) in
      if disk.exists ancestor then ancestor_end ancestor tail else later
  climb (c ∷ up) tail = ancestor_end (reversed [] (c ∷ up)) tail

  unfoldable pub canonicalize_with_ancestor : List Component → Result (List Component)
  canonicalize_with_ancestor path =
      if disk.exists path then or_fails (disk.canonicalize path) else climb (reversed [] path) []

  unfoldable pub jailed :
      (root : List Component) → Result (List Component) → Result (List Component)
  jailed root (err e) = err e
  jailed root (ok canonical) =
      if starts_with canonical root then ok canonical else err invalid_input

  unfoldable pub validate_path : (raw : Bytes) (root : List Component) → Result (List Component)
  validate_path raw root =
      if has_nul raw || climbs (components raw)
      then err invalid_input
      else jailed root (canonicalize_with_ancestor (components raw))
