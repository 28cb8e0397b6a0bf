-- ===== src/Keys/Filesystem/Names.antt =====
-- keys/filesystem.go: the names that a directory lists, and the most recent version among them.
use go_bananas.Base.{
  ◌≡◌, ◌≢◌, inl, inr, refl, subst, Bool, true, false, Option, none, some, List, [], ◌∷◌, Bytes,
  bytes_eq, codes, ◌==◌, arith, if◌then◌else◌, cut_prefix, eqb, any, Lacks, All, All-append,
  Bool-cases,
}
use go_bananas.Base.Result.{Result, ok, err}
use go_bananas.Flash.{bytes_ltb}
use go_bananas.Paths.{dots}
use go_bananas.Paths.Clean.{IsProper}
use go_bananas.Keys.Filesystem.{
  Disk, Error, metadata, is_name, entry_names, dir_prefix, children, paths, read_dir, newer, latest,
  not_listed,
}

abbrev pub IsEntry : Bytes → Type 0
IsEntry w = IsProper w × (w ≢ dots)

any-Lacks : (w : Bytes) → any (λ c. eqb c 47) w ≡ false → Lacks 47 w
any-Lacks [] h = tt
any-Lacks (c ∷ w) h = (ground arith, any-Lacks w (ground arith))

is_name-IsEntry : (w : Bytes) → is_name w ≡ true → IsEntry w
is_name-IsEntry w h = (
  (
    ground (arith, bytes_eq.equals_iff w []),
    ground (arith, bytes_eq.equals_iff w (codes ".")),
    any-Lacks w (ground arith),
  ),
  ground (arith, bytes_eq.equals_iff w dots),
)

entry_names-All :
    (o : Option Bytes) (names : List Bytes) → All IsEntry names → All IsEntry (entry_names o names)
entry_names-All none names h = h
entry_names-All (some w) names h = elim (Bool-cases (is_name w)) [
  | inl e ↦ rw e (is_name-IsEntry w e, h)
  | inr e ↦ rw e h
]

children-All : (dir : Bytes) (ps : List Bytes) → All IsEntry (children dir ps)
children-All dir [] = tt
children-All dir (p ∷ ps) =
    entry_names-All (cut_prefix (dir_prefix dir) p) (children dir ps) (children-All dir ps)

abbrev listed : Bool → List Bytes → Result Error (List Bytes)
listed there names = if there then ok names else err not_listed

listed-All :
    (there : Bool) (xs names : List Bytes)
    → All IsEntry xs
    → listed there xs ≡ ok names
    → All IsEntry names
listed-All true xs names h e = subst (All IsEntry) (ground (arith, e)) h
listed-All false xs names h e = absurd (ground (arith, e))

-- A directory lists file names only.
pub read_dir-IsEntry :
    (d : Disk) (dir : Bytes) (names : List Bytes) → read_dir d dir ≡ ok names → All IsEntry names
unfolding read_dir
read_dir-IsEntry d dir names h =
    listed-All (any (λ p. p == dir) d.dirs) _ names
      (All-append IsEntry (children dir d.dirs) _ (children-All dir d.dirs)
        (children-All dir (paths d.files)))
      h

-- The most recent version is one of the names, and not the metadata.
pub latest-All :
    {P : Bytes → Type 0} (best : Option Bytes) (names : List Bytes) (v : Bytes)
    → All P names
    → ((b : Bytes) → best ≡ some b → P b)
    → latest best names ≡ some v
    → P v
unfolding latest
latest-All best [] v h k e = k v e
latest-All {P} best (name ∷ names) v (p, h) k e =
    latest-All {P = P} (if name == metadata then best else some (newer name best)) names v h next e
  where
    chosen : (o : Option Bytes) → ((b : Bytes) → o ≡ some b → P b) → P (newer name o)
    chosen none k = p
    chosen (some best) k = elim (Bool-cases (bytes_ltb best name)) [
      | inl e ↦ rw e p
      | inr e ↦ rw e (k best refl)
    ]

    next : (b : Bytes) → (if name == metadata then best else some (newer name best)) ≡ some b → P b
    next b = elim (Bool-cases (name == metadata)) [
      | inl skip ↦ rw skip (k b)
      | inr keep ↦ rw keep (λ e. subst P (ground (arith, e)) (chosen best k))
    ]
