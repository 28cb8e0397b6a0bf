-- ===== src/Paths/Tests.antt =====
-- Cleaning and joining concrete paths.
use go_bananas.Base.{◌≡◌, ◌↔◌, ◌⊎◌, refl, inl, inr, codes, list_beq, split, join}
use go_bananas.Paths.Within.{IsWithin, safe_join-IsWithin}
use go_bananas.Paths.{
  Error, base_of, render, clean, safe_join, join_paths, escapes_root, not_relative, rel, walk, step,
}

program : Unit {0}
unfolding render clean safe_join join_paths rel walk step list_beq split join
program = tt

clean_tests :
    (render (clean (codes "a//b/./../c/")) ≡ codes "a/c")
    × (render (clean (codes "/../a")) ≡ codes "/a")
    × (render (clean (codes "../../a/..")) ≡ codes "../..")
    × (render (clean (codes "")) ≡ codes ".")
unfolding program
clean_tests = (refl, refl, refl, refl)

safe_join_tests :
    (safe_join (codes "/keys") (codes "../etc/passwd") ≡ inl escapes_root)
    × (safe_join (codes "/keys") (codes "a/../b") ≡ inr (codes "/keys/b"))
    × (safe_join (codes "") (codes "/etc") ≡ inl not_relative)
    × (safe_join (codes "/keys") (codes "/b") ≡ inr (codes "/keys/b"))
    × (safe_join (codes "..") (codes "..") ≡ inl escapes_root)
unfolding program
safe_join_tests = (refl, refl, refl, refl, refl)

safe_join-IsWithin_example :
    ((safe_join (codes "/keys") (codes "a/../b")
        ≡ inr (join_paths (codes "/keys") (codes "a/../b")))
      ↔ IsWithin
          (clean (base_of (codes "/keys")))
          (clean (join_paths (codes "/keys") (codes "a/../b"))))
    × ((safe_join (codes "/keys") (codes "a/../b")
          ≡ inr (join_paths (codes "/keys") (codes "a/../b")))
        ⊎ ((e : Error) × (safe_join (codes "/keys") (codes "a/../b") ≡ inl e)))
safe_join-IsWithin_example = safe_join-IsWithin (codes "/keys") (codes "a/../b")
