-- ===== src/Serve/Jail/Inside.antt =====
-- A path that `validate_path` accepts is inside the jail.
use bcmr.Prelude.{◌≡◌, refl, sym, ap, ◌∙◌, arith, true, false, ◌||◌}
use bcmr.Prelude.{Option, none, some, List, [], ◌∷◌, ◌++◌}
use bcmr.Prelude.{Bool-cases, Option-cases, inl, inr}
use mathlib.Core.Path.{subst}
use bcmr.Bytes.Word.{Bytes}
use bcmr.Bytes.Equal.{bytes_eq_iff}
use bcmr.Paths.{Component, root_dir, cur_dir, parent_dir, normal, components, component_eq}
use bcmr.Errors.{Result, ok, err}
use bcmr.Serve.Jail.{Disk, has_nul, climbs, starts_with, reversed, or_fails, pushed, ancestor_end}
use bcmr.Serve.Jail.{climb, canonicalize_with_ancestor, jailed, validate_path}

-- The documented behaviour of `canonicalize` and `current_dir`: an absolute path without `..`.
pub record IsCanonical (disk : Disk) : Type 0 where
  pub resolved : (path p : List Component) → disk.canonicalize path ≡ some p → climbs p ≡ false
  pub current : (p : List Component) → disk.current_dir ≡ some p → climbs p ≡ false

component_eq_lem : (a b : Component) → component_eq a b ≡ true → a ≡ b
unfolding component_eq
component_eq_lem root_dir root_dir h = refl
component_eq_lem cur_dir cur_dir h = refl
component_eq_lem parent_dir parent_dir h = refl
component_eq_lem (normal a) (normal b) h = ap normal ((bytes_eq_iff a b).0 h)
component_eq_lem root_dir cur_dir h = cc
component_eq_lem root_dir parent_dir h = cc
component_eq_lem root_dir (normal b) h = cc
component_eq_lem cur_dir root_dir h = cc
component_eq_lem cur_dir parent_dir h = cc
component_eq_lem cur_dir (normal b) h = cc
component_eq_lem parent_dir root_dir h = cc
component_eq_lem parent_dir cur_dir h = cc
component_eq_lem parent_dir (normal b) h = cc
component_eq_lem (normal a) root_dir h = cc
component_eq_lem (normal a) cur_dir h = cc
component_eq_lem (normal a) parent_dir h = cc

starts_with_lem :
    (path root : List Component)
    → starts_with path root ≡ true
    → (rest : List Component) × (path ≡ root ++ rest)
unfolding starts_with
starts_with_lem path [] h = (path, refl)
starts_with_lem [] (r ∷ root) h = cc
starts_with_lem (c ∷ path) (r ∷ root) h = elim (Bool-cases (component_eq c r)) [
  | inl same ↦
      let below : starts_with path root ≡ true = ground (arith, same) in
      let (rest, e) = starts_with_lem path root below in
      (rest, rw (component_eq_lem c r same, e) refl)
  | inr differs ↦ absurd (ground (arith, differs))
]

climbs-append :
    (xs ys : List Component) → climbs xs ≡ false → climbs ys ≡ false → climbs (xs ++ ys) ≡ false
unfolding climbs
climbs-append [] ys h k = k
climbs-append (root_dir ∷ xs) ys h k = climbs-append xs ys h k
climbs-append (cur_dir ∷ xs) ys h k = climbs-append xs ys h k
climbs-append (parent_dir ∷ xs) ys h k = cc
climbs-append (normal a ∷ xs) ys h k = climbs-append xs ys h k

module _ (disk : Disk) (lawful : IsCanonical disk) where
  -- What comes out of the file system and has names pushed has no `..`.
  pushed-climbs :
      (o : Option (List Component)) (tail p : List Component)
      → ((q : List Component) → o ≡ some q → climbs q ≡ false)
      → climbs tail ≡ false
      → pushed (or_fails o) tail ≡ ok p
      → climbs p ≡ false
  unfolding pushed or_fails
  pushed-climbs none tail p h k e = cc
  pushed-climbs (some q) tail p h k e =
      let is : q ++ tail ≡ p = cc in
      subst (λ (x : List Component). climbs x ≡ false) is (climbs-append q tail (h q refl) k)

  ancestor_end-climbs :
      (ancestor tail p : List Component)
      → climbs tail ≡ false
      → ancestor_end disk ancestor tail ≡ ok p
      → climbs p ≡ false
  unfolding ancestor_end
  ancestor_end-climbs [] tail p k e = pushed-climbs disk.current_dir tail p lawful.current k e
  ancestor_end-climbs (c ∷ cs) tail p k e = elim (Bool-cases (disk.exists (c ∷ cs))) [
    | inl there ↦
        pushed-climbs (disk.canonicalize (c ∷ cs)) tail p (lawful.resolved (c ∷ cs)) k
          (ground (arith, there, e))
    | inr gone ↦ absurd (ground (arith, gone, e))
  ]

  climb-climbs :
      (up tail p : List Component)
      → climbs tail ≡ false
      → climb disk up tail ≡ ok p
      → climbs p ≡ false
  unfolding climb climbs
  climb-climbs [] tail p k e = ancestor_end-climbs [] tail p k e
  climb-climbs (normal name ∷ up) tail p k e =
      elim (Bool-cases (disk.exists (reversed [] (normal name ∷ up)))) [
        | inl there ↦ ancestor_end-climbs (reversed [] (normal name ∷ up)) tail p k (rw there at e)
        | inr gone ↦ climb-climbs up (normal name ∷ tail) p k (rw gone at e)
      ]
  climb-climbs (root_dir ∷ up) tail p k e = ancestor_end-climbs _ tail p k e
  climb-climbs (cur_dir ∷ up) tail p k e = ancestor_end-climbs _ tail p k e
  climb-climbs (parent_dir ∷ up) tail p k e = ancestor_end-climbs _ tail p k e

  canonicalize_with_ancestor-climbs :
      (path p : List Component) → canonicalize_with_ancestor disk path ≡ ok p → climbs p ≡ false
  unfolding canonicalize_with_ancestor or_fails climbs
  canonicalize_with_ancestor-climbs path p e = elim (Bool-cases (disk.exists path)) [
    | inl there ↦ elim (Option-cases (disk.canonicalize path)) [
      | inl failed ↦ absurd (ground (arith, there, failed, e))
      | inr (q, found) ↦
          let same : q ≡ p = ground (arith, there, found, e) in
          lawful.resolved path p (found ∙ ap (λ (x : List Component). some x) same)
    ]
    | inr gone ↦ climb-climbs (reversed [] path) [] p refl (rw gone at e)
  ]

  jailed_inv :
      (root : List Component) (r : Result (List Component)) (p : List Component)
      → jailed disk root r ≡ ok p
      → (r ≡ ok p) × (starts_with p root ≡ true)
  unfolding jailed
  jailed_inv root (err x) p e = cc
  jailed_inv root (ok q) p e = elim (Bool-cases (starts_with q root)) [
    | inl below ↦
        let same : q ≡ p = ground (arith, below, e) in
        (
          ap (λ (x : List Component). ok x) same,
          ap (λ (x : List Component). starts_with x root) (sym same) ∙ below,
        )
    | inr outside ↦ absurd (ground (arith, outside, e))
  ]

  -- A path that the server accepts lies below its root and does not go up again, if the file
  -- system resolves paths to absolute ones without `..`; and the name that the client sent has no
  -- `..` and no null byte.
  pub validate_path-jailed :
      (raw : Bytes) (root p : List Component)
      → validate_path disk raw root ≡ ok p
      → ((rest : List Component) × (p ≡ root ++ rest))
        × (climbs p ≡ false)
        × (climbs (components raw) ≡ false)
        × (has_nul raw ≡ false)
  unfolding validate_path
  validate_path-jailed raw root p e = elim (Bool-cases (has_nul raw || climbs (components raw))) [
    | inl refused ↦ absurd (ground (arith, refused, e))
    | inr clean ↦
        let inside : jailed disk root (canonicalize_with_ancestor disk (components raw)) ≡ ok p =
          rw clean at e in
        let (found, below) =
          jailed_inv root (canonicalize_with_ancestor disk (components raw)) p inside in
        (
          starts_with_lem p root below,
          canonicalize_with_ancestor-climbs (components raw) p found,
          ground (arith, clean),
          ground (arith, clean),
        )
  ]
