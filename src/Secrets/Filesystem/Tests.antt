-- ===== src/Secrets/Filesystem/Tests.antt =====
-- The file system manager below concrete roots.
use go_bananas.Base.{
  ℕ, ◌≡◌, ◌⊎◌, inl, inr, refl, true, Option, none, some, [], ◌∷◌, Bytes, bytes_eq, codes, list_beq,
  split, join, cut_prefix, arith,
}
use go_bananas.Base.Dict
use go_bananas.Paths.{FilePath, render, clean, safe_join, join_paths, rel, walk, step}
use go_bananas.Paths.Clean.{IsProper}
use go_bananas.Secrets.Filesystem.{
  Error, System, not_read, get_secret_value, create_secret_version, destroy_secret_version,
}
use go_bananas.Secrets.Filesystem.Contained.{Spares, IsInside, filesystem-Spares}
use go_bananas.Secrets.Filesystem.RoundTrip.{IsPlainRoot, get-create_version}

program : Unit {0}
unfolding render clean safe_join join_paths rel walk step list_beq split join cut_prefix
    get_secret_value create_secret_version Dict.lookup Dict.insert
program = tt

abbrev fine : Bytes → Option ℕ
fine path = none

abbrev system : System
system = record { mkdir_all = fine; write_file = fine; remove = fine }

abbrev root : FilePath
root = record { rooted = true; parts = codes "s" ∷ [] }

-- With the root "./s" a version of "a" is created as s/a/1 and returned as "s/a/1", which is then
-- looked for below the root once more.
unclean_root_test :
    (create_secret_version system (codes "./s") (codes "a") (codes "x") (codes "1") []
      ≡ (inr (codes "s/a/1"), (codes "s/a/1", codes "x") ∷ []))
    × (get_secret_value (codes "./s") (codes "s/a/1") ((codes "s/a/1", codes "x") ∷ [])
        ≡ inl not_read)
unfolding program
unclean_root_test = (refl, refl)

stamp-IsProper : IsProper (codes "1")
stamp-IsProper = (ground arith, ground arith, (ground arith, tt))

filesystem-Spares_example :
    Spares
      (codes "/s")
      []
      (create_secret_version system (codes "/s") (codes "a") (codes "x") (codes "1") []).1
    × Spares (codes "/s") [] (destroy_secret_version system (codes "/s") (codes "a") []).1
    × (((e : Error) × (get_secret_value (codes "/s") (codes "a") [] ≡ inl e))
        ⊎ ((b : Bytes) × (get_secret_value (codes "/s") (codes "a") [] ≡ inr b)
            × ((path : Bytes) × IsInside (codes "/s") path × (Dict.lookup path [] ≡ some b))))
filesystem-Spares_example =
    filesystem-Spares system (codes "/s") (codes "a") (codes "x") (codes "1") [] stamp-IsProper
      (ground arith)

root-IsPlainRoot : IsPlainRoot (codes "/s") root
unfolding render join
root-IsPlainRoot = (
  (
    codes "s" ∷ [],
    refl,
    ((ground arith, ground arith, (ground arith, tt)), inl (ground arith), tt),
  ),
  ground arith,
  refl,
)

created_test :
    create_secret_version system (codes "/s") (codes "a") (codes "x") (codes "1") []
    ≡ (inr (codes "a/1"), (codes "/s/a/1", codes "x") ∷ [])
unfolding program
created_test = refl

get-create_version_example :
    get_secret_value (codes "/s") (codes "a/1") ((codes "/s/a/1", codes "x") ∷ []) ≡ inr (codes "x")
get-create_version_example =
    get-create_version (codes "/s") (codes "1") root root-IsPlainRoot stamp-IsProper (ground arith)
      system (codes "a") (codes "x") (codes "a/1") [] ((codes "/s/a/1", codes "x") ∷ [])
      created_test
