-- ===== src/Paths/Within.antt =====
-- internal/util/path.go: SafeJoin stays below its root.
use go_bananas.Base.{
  ◌≡◌, ◌⊎◌, inl, inr, refl, sym, ap, ap₂, subst, ◌↔◌, ◌∙◌, Bool, true, false, Option, none, some,
  List, [], ◌∷◌, ◌++◌, Bytes, bytes_eq, codes, ◌==◌, arith, Bool-cases,
}
use mathlib.Core.List.{append-nil}
use go_bananas.Paths.{
  FilePath, dots, clean, render, join_paths, strip_base, target_parts, render_parts, same_root, rel,
  escapes, escapes_root, not_relative, base_of, check_rel, safe_join, Error,
}
use go_bananas.Paths.Clean.{
  IsClean, AllProper, NoDots, DotsFirst, clean-IsClean, clean-render, clean-DotsFirst,
  clean-AllProper,
}

-- The path lies at or below the base: it has the base's parts, and then parts none of which is "..".
abbrev pub IsWithin : FilePath → FilePath → Type 0
IsWithin b t =
    (t.rooted ≡ b.rooted) × ((extra : List Bytes) × (t.parts ≡ b.parts ++ extra) × NoDots extra)

-- A stripped target that does not escape is the base's parts and those that are left.
strip_base_lem :
    (bs ts r : List Bytes) → strip_base bs ts ≡ some r → escapes r ≡ false → ts ≡ bs ++ r
strip_base_lem [] ts r h k = ground (arith, h)
strip_base_lem (b ∷ bs) [] r h k = absurd (ground (arith, h, k, bytes_eq.equals_iff dots dots))
strip_base_lem (b ∷ bs) (t ∷ ts) r h k =
    ground
      (arith, h, k, bytes_eq.equals_iff b t, bytes_eq.equals_iff dots dots, strip_base_lem bs ts r)

strip_base-append : (bs extra : List Bytes) → strip_base bs (bs ++ extra) ≡ some extra
strip_base-append [] extra = refl
strip_base-append (b ∷ bs) extra =
    ground (arith, bytes_eq.equals_iff b b, strip_base-append bs extra)

suffix-NoDots : (bs r : List Bytes) → DotsFirst (bs ++ r) → escapes r ≡ false → NoDots r
suffix-NoDots [] [] h k = tt
suffix-NoDots [] (x ∷ r) (inl free, h) k = (ground (arith, k, bytes_eq.equals_iff x dots), free)
suffix-NoDots [] (x ∷ r) (inr e, h) k = absurd (ground (arith, k, e, bytes_eq.equals_iff x dots))
suffix-NoDots (b ∷ bs) r (_, h) k = suffix-NoDots bs r h k

NoDots-escapes : (r : List Bytes) → NoDots r → escapes r ≡ false
NoDots-escapes [] h = refl
NoDots-escapes (x ∷ r) (apart, h) = ground (arith, apart, bytes_eq.equals_iff x dots)

same_root_lem : (a b : Bool) → same_root a b ≡ true → b ≡ a
same_root_lem true true h = refl
same_root_lem false false h = refl
same_root_lem true false h = absurd (ground arith)
same_root_lem false true h = absurd (ground arith)

same_root_refl : (a : Bool) → same_root a a ≡ true
same_root_refl true = refl
same_root_refl false = refl

-- Paths that are printed alike are the same.
render_inj : (b t : FilePath) → IsClean b → IsClean t → render t ≡ render b → t ≡ b
render_inj b t hb ht e = sym (clean-render t ht) ∙ ap clean e ∙ clean-render b hb

-- What is stripped off the target, by the parts of the two.
parts_of_strip :
    (rooted : Bool) (bs ts r : List Bytes)
    → AllProper bs
    → DotsFirst ts
    → strip_base bs (target_parts rooted ts) ≡ some r
    → escapes r ≡ false
    → (extra : List Bytes) × (ts ≡ bs ++ extra) × NoDots extra
parts_of_strip rooted bs (t ∷ ts) r p d h k =
    let e : t ∷ ts ≡ bs ++ r = strip_base_lem bs (t ∷ ts) r h k in
    (r, e, suffix-NoDots bs r (subst DotsFirst e d) k)
parts_of_strip true bs [] r p d h k =
    let e : [] ≡ bs ++ r = strip_base_lem bs [] r h k in
    (r, e, suffix-NoDots bs r (subst DotsFirst e d) k)
parts_of_strip false [] [] r p d h k = ([], refl, tt)
parts_of_strip false (b ∷ bs) [] r ((_, no_dot, _), p) d h k =
    absurd (no_dot (ground (arith, strip_base_lem (b ∷ bs) (codes "." ∷ []) r h k)))

rel-IsWithin :
    (b t : FilePath) (r : List Bytes)
    → IsClean b
    → IsClean t
    → rel b t ≡ some r
    → escapes r ≡ false
    → IsWithin b t
unfolding rel
rel-IsWithin b t r hb ht h k = elim (Bool-cases (render t == render b)) [
  | inl same ↦
      let e : t ≡ b = render_inj b t hb ht ((bytes_eq.equals_iff (render t) (render b)).0 same) in
      (ap (λ p. p.rooted) e, ([], ap (λ p. p.parts) e ∙ sym (append-nil b.parts), tt))
  | inr other ↦ elim (Bool-cases (same_root b.rooted t.rooted)) [
    | inl roots ↦ (
      same_root_lem b.rooted t.rooted roots,
      parts_of_strip t.rooted b.parts t.parts r (clean-AllProper b hb) (clean-DotsFirst t ht)
          (rw (other, roots) at h) k,
    )
    | inr roots ↦ absurd (ground (arith, other, roots, h))
  ]
]

target_parts_lem :
    (rooted : Bool) (ts : List Bytes)
    → (target_parts rooted ts ≡ ts) ⊎ ((ts ≡ []) × (rooted ≡ false))
target_parts_lem true [] = inl refl
target_parts_lem false [] = inr (refl, refl)
target_parts_lem true (p ∷ ps) = inl refl
target_parts_lem false (p ∷ ps) = inl refl

pub append_empty : (bs extra : List Bytes) → [] ≡ bs ++ extra → bs ≡ []
append_empty [] extra h = refl
append_empty (b ∷ bs) extra h = absurd (ground arith)

render_empty :
    (b t : FilePath)
    → b.rooted ≡ false
    → b.parts ≡ []
    → t.rooted ≡ false
    → t.parts ≡ []
    → render t ≡ render b
unfolding render
render_empty b t e f g h = ap₂ render_parts (g ∙ sym e) (h ∙ sym f)

IsWithin-rel :
    (b t : FilePath) → IsWithin b t → (r : List Bytes) × (rel b t ≡ some r) × (escapes r ≡ false)
unfolding rel
IsWithin-rel b t (roots, (extra, e, free)) = elim (Bool-cases (render t == render b)) [
  | inl same ↦
      (codes "." ∷ [], (rw same refl), ground (arith, bytes_eq.equals_iff (codes ".") dots))
  | inr other ↦ elim (target_parts_lem t.rooted t.parts) [
    | inl whole ↦ (
      extra,
      (rw (other, roots, same_root_refl b.rooted) (below whole)),
      NoDots-escapes extra free,
    )
    | inr (none_left, relative) ↦ absurd (
        ground (
          arith,
          other,
          bytes_eq.equals_iff (render t) (render b),
          render_empty b t (sym roots ∙ relative) (append_empty b.parts extra (sym none_left ∙ e))
              relative none_left,
        ))
  ]
]
  where
    below :
        target_parts t.rooted t.parts ≡ t.parts
        → strip_base b.parts (target_parts b.rooted t.parts) ≡ some extra
    below whole =
        ap (λ x. strip_base b.parts (target_parts x t.parts)) (sym roots)
        ∙ ap (strip_base b.parts) (whole ∙ e)
        ∙ strip_base-append b.parts extra

check_rel_lem :
    (joined : Bytes) (o : Option (List Bytes))
    → check_rel joined o ≡ inr joined
    → (r : List Bytes) × (o ≡ some r) × (escapes r ≡ false)
check_rel_lem joined none h = absurd (ground arith)
check_rel_lem joined (some r) h = (r, refl, ground (arith, h))

-- SafeJoin accepts a name exactly if the joined path, as cleaned, lies at or below the cleaned root,
-- that is, has its parts and then none that is "..". It then returns the joined path, and an error
-- in every other case. An empty root is the working directory.
pub safe_join-IsWithin :
    (root name : Bytes)
    → ((safe_join root name ≡ inr (join_paths root name))
        ↔ IsWithin (clean (base_of root)) (clean (join_paths root name)))
      × ((safe_join root name ≡ inr (join_paths root name))
          ⊎ ((e : Error) × (safe_join root name ≡ inl e)))
unfolding safe_join
safe_join-IsWithin root name = ((within, accepted), answers _)
  where
    within :
        check_rel (join_paths root name) (rel (clean (base_of root)) (clean (join_paths root name)))
          ≡ inr (join_paths root name)
        → IsWithin (clean (base_of root)) (clean (join_paths root name))
    within h =
        let (r, e, k) = check_rel_lem (join_paths root name) _ h in
        rel-IsWithin (clean (base_of root)) (clean (join_paths root name)) r
          (clean-IsClean (base_of root)) (clean-IsClean (join_paths root name)) e k

    accepted :
        IsWithin (clean (base_of root)) (clean (join_paths root name))
        → check_rel
            (join_paths root name)
            (rel (clean (base_of root)) (clean (join_paths root name)))
          ≡ inr (join_paths root name)
    accepted h =
        let (r, e, k) = IsWithin-rel (clean (base_of root)) (clean (join_paths root name)) h in
        rw (e, k) refl

    answers :
        (o : Option (List Bytes))
        → (check_rel (join_paths root name) o ≡ inr (join_paths root name))
          ⊎ ((e : Error) × (check_rel (join_paths root name) o ≡ inl e))
    answers none = inr (not_relative, refl)
    answers (some r) = elim (Bool-cases (escapes r)) [
      | inl out ↦ inr (escapes_root, (rw out refl))
      | inr stays ↦ inl (rw stays refl)
    ]

-- What SafeJoin returns is the joined path, and lies within the root.
pub safe_join-eq-inr :
    (root name path : Bytes)
    → safe_join root name ≡ inr path
    → (path ≡ join_paths root name) × IsWithin (clean (base_of root)) (clean path)
safe_join-eq-inr root name path h = go ((safe_join-IsWithin root name).1)
  where
    go :
        (safe_join root name ≡ inr (join_paths root name))
          ⊎ ((e : Error) × (safe_join root name ≡ inl e))
        → (path ≡ join_paths root name) × IsWithin (clean (base_of root)) (clean path)
    go (inl joined) =
        let e : path ≡ join_paths root name = cc in
        (
          e,
          subst (λ p. IsWithin (clean (base_of root)) (clean p)) (sym e)
              ((safe_join-IsWithin root name).0.0 joined),
        )
    go (inr (e, refused)) = absurd (ground (arith, h, refused))
