-- ===== src/Paths.antt =====
-- `std::path::Path` on Unix, where a path is any string of bytes, and `==` compares components.
use bcmr.Prelude.{
  ◌==◌, if◌then◌else◌, ◌≡◌, refl, Bool, true, false, ◌&&◌, ◌||◌, List, [], ◌∷◌, ◌++◌,
}
use bcmr.Bytes.Word.{Bytes}
use bcmr.Bytes.Equal.{bytes_eq, bytes_eq_refl}

pub data Component : Type 0 where
  root_dir cur_dir parent_dir : Component
  normal : Bytes → Component

-- The parts between slashes, empty ones included.
split_slashes : Bytes → Bytes → List Bytes
split_slashes part [] = part ∷ []
split_slashes part (b ∷ bs) =
    let inside = split_slashes (part ++ (b ∷ [])) bs in
    let outside = part ∷ split_slashes [] bs in if b == b'/' then outside else inside

-- Empty parts and dots are dropped.
inner_components : List Bytes → List Component
inner_components [] = []
inner_components (part ∷ parts) =
    let later = inner_components parts in
    if bytes_eq part [] || bytes_eq part (b'.' ∷ [])
    then later
    else if bytes_eq part (b'.' ∷ b'.' ∷ [])
    then parent_dir ∷ later
    else normal part ∷ later

-- A dot counts at the front of a relative path.
first_components : List Bytes → List Component
first_components [] = []
first_components (part ∷ parts) =
    if bytes_eq part (b'.' ∷ [])
    then cur_dir ∷ inner_components parts
    else inner_components (part ∷ parts)

unfoldable pub components : Bytes → List Component
unfolding split_slashes inner_components first_components bytes_eq
components [] = []
components (b ∷ bs) =
    if b == b'/'
    then root_dir ∷ inner_components (split_slashes [] bs)
    else first_components (split_slashes [] (b ∷ bs))

unfoldable pub component_eq : Component → Component → Bool
component_eq root_dir root_dir = true
component_eq cur_dir cur_dir = true
component_eq parent_dir parent_dir = true
component_eq (normal a) (normal b) = bytes_eq a b
component_eq _ _ = false

components_eq : List Component → List Component → Bool
components_eq [] [] = true
components_eq (a ∷ xs) (b ∷ ys) = component_eq a b && components_eq xs ys
components_eq _ _ = false

unfoldable pub path_eq : Bytes → Bytes → Bool
unfolding components_eq component_eq
path_eq a b = components_eq (components a) (components b)

components_eq_refl : (cs : List Component) → components_eq cs cs ≡ true
unfolding components_eq component_eq
components_eq_refl [] = refl
components_eq_refl (root_dir ∷ cs) = components_eq_refl cs
components_eq_refl (cur_dir ∷ cs) = components_eq_refl cs
components_eq_refl (parent_dir ∷ cs) = components_eq_refl cs
components_eq_refl (normal a ∷ cs) = rw (bytes_eq_refl a) (components_eq_refl cs)

pub path_eq_refl : (p : Bytes) → path_eq p p ≡ true
unfolding path_eq
path_eq_refl p = components_eq_refl (components p)

-- "./a//b/.." has the components ., a, b and ..; "/a/./b" those of "/a/b/".
components_cases :
    (components (b'.' ∷ b'/' ∷ b'a' ∷ b'/' ∷ b'/' ∷ b'b' ∷ b'/' ∷ b'.' ∷ b'.' ∷ [])
      ≡ cur_dir ∷ normal (b'a' ∷ []) ∷ normal (b'b' ∷ []) ∷ parent_dir ∷ [])
    × (path_eq
          (b'/' ∷ b'a' ∷ b'/' ∷ b'.' ∷ b'/' ∷ b'b' ∷ [])
          (b'/' ∷ b'a' ∷ b'/' ∷ b'b' ∷ b'/' ∷ [])
        ≡ true)
unfolding path_eq components components_eq component_eq
components_cases = (refl, refl)
