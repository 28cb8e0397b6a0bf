-- ===== src/Paths.antt =====
-- internal/util/path.go, with what it takes from Go's path/filepath on Unix: a path is cleaned part
-- by part, on a stack with the last part at its head.
pub mod Clean
pub mod Within
pub mod Extend
pub mod Nested
mod Tests
use go_bananas.Base.{
  Bool, true, false, ◌||◌, Option, none, some, List, [], ◌∷◌, ◌++◌, map, Bytes, bytes_eq, codes,
  ◌==◌, eqb, if◌then◌else◌, split, join, ◌⊎◌, inl, inr,
}
use mathlib.Core.List.{reverse}

-- A cleaned path
pub record FilePath : Type 0 where
  pub rooted : Bool
  pub parts : List Bytes

abbrev pub dots : Bytes
dots = codes ".."

abbrev pub up : Bool → List Bytes → List Bytes
up rooted [] = if rooted then [] else dots ∷ []
up rooted (top ∷ stack) = if top == dots then dots ∷ top ∷ stack else stack

unfoldable pub step : Bool → List Bytes → Bytes → List Bytes
step rooted stack part =
    if part == [] || part == codes "."
    then stack
    else if part == dots
    then up rooted stack
    else part ∷ stack

unfoldable pub walk : Bool → List Bytes → List Bytes → List Bytes
unfolding step
walk rooted stack [] = stack
walk rooted stack (p ∷ ps) = walk rooted (step rooted stack p) ps

abbrev pub is_rooted : Bytes → Bool
is_rooted [] = false
is_rooted (c ∷ s) = eqb c 47

-- filepath.Clean
unfoldable pub clean : Bytes → FilePath
unfolding walk
clean s = record { rooted = is_rooted s; parts = reverse (walk (is_rooted s) [] (split 47 s)) }

abbrev pub render_parts : Bool → List Bytes → Bytes
render_parts true ps = 47 ∷ join 47 ps
render_parts false [] = codes "."
render_parts false (p ∷ ps) = join 47 (p ∷ ps)

unfoldable pub render : FilePath → Bytes
render p = render_parts p.rooted p.parts

-- filepath.Join of two elements, which leaves out empty ones.
unfoldable pub join_paths : Bytes → Bytes → Bytes
unfolding clean render
join_paths [] [] = []
join_paths [] (c ∷ b) = render (clean (c ∷ b))
join_paths (c ∷ a) [] = render (clean (c ∷ a))
join_paths (c ∷ a) (d ∷ b) = render (clean ((c ∷ a) ++ 47 ∷ d ∷ b))

-- The target's parts after those of the base; `none` where a part of the base is "..".
abbrev pub strip_base : List Bytes → List Bytes → Option (List Bytes)
strip_base [] ts = some ts
strip_base (b ∷ bs) [] = some (map (λ p. dots) (b ∷ bs))
strip_base (b ∷ bs) (t ∷ ts) =
    if b == t
    then strip_base bs ts
    else if b == dots
    then none
    else some (map (λ p. dots) (b ∷ bs) ++ t ∷ ts)

abbrev pub target_parts : Bool → List Bytes → List Bytes
target_parts false [] = codes "." ∷ []
target_parts true [] = []
target_parts rooted (p ∷ ps) = p ∷ ps

abbrev pub same_root : Bool → Bool → Bool
same_root true true = true
same_root false false = true
same_root _ _ = false

-- filepath.Rel of cleaned paths, as the parts of its result
unfoldable pub rel : FilePath → FilePath → Option (List Bytes)
unfolding render
rel b t =
    if render t == render b
    then some (codes "." ∷ [])
    else if same_root b.rooted t.rooted
    then strip_base b.parts (target_parts t.rooted t.parts)
    else none

pub data Error : Type 0 where
  not_relative : Error
  escapes_root : Error

abbrev pub escapes : List Bytes → Bool
escapes [] = false
escapes (p ∷ ps) = p == dots

abbrev pub base_of : Bytes → Bytes
base_of [] = codes "."
base_of (c ∷ root) = c ∷ root

abbrev pub check_rel : Bytes → Option (List Bytes) → Error ⊎ Bytes
check_rel joined none = inl not_relative
check_rel joined (some r) = if escapes r then inl escapes_root else inr joined

-- SafeJoin
unfoldable pub safe_join : Bytes → Bytes → Error ⊎ Bytes
unfolding join_paths rel clean
safe_join root name =
    let joined = join_paths root name in
    check_rel joined (rel (clean (base_of root)) (clean joined))
