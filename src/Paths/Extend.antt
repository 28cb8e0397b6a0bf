-- ===== src/Paths/Extend.antt =====
-- Go's path/filepath: a name is added below a cleaned path.
use go_bananas.Base.{
  ◌≡◌, ◌≢◌, ◌⊎◌, inl, inr, refl, sym, ap, subst, ◌∙◌, Bool, true, false, List, [], ◌∷◌, ◌++◌, Bytes,
  arith, split, join, split-Lacks, split-append_any, list_beq,
}
use mathlib.Core.List.{reverse, reverse-cons, append_assoc}
use go_bananas.Paths.{
  FilePath, dots, step, walk, is_rooted, clean, render_parts, render, join_paths,
}
use go_bananas.Paths.Within.{IsWithin}
use go_bananas.Paths.Clean.{
  IsClean, IsProper, IsGood, AllProper, NoDots, clean-IsClean, clean-render, step_put, walk-append,
  walk-render, walk-reverse, is_rooted-render, AllProper-reverse, AllProper-AllLack,
}

pub is_rooted-append : (a b : Bytes) → a ≢ [] → is_rooted (a ++ b) ≡ is_rooted a
is_rooted-append [] b h = absurd (h refl)
is_rooted-append (c ∷ a) b h = refl

render_parts-ne_nil : (r : Bool) (ps : List Bytes) → AllProper ps → render_parts r ps ≢ []
unfolding join
render_parts-ne_nil true ps h = ground arith
render_parts-ne_nil false [] h = ground arith
render_parts-ne_nil false (p ∷ []) ((some_text, _, _), h) = some_text
render_parts-ne_nil false ([] ∷ q ∷ ps) ((some_text, _, _), h) = absurd (some_text refl)
render_parts-ne_nil false ((c ∷ p) ∷ q ∷ ps) h = ground arith

clean_snoc :
    (r : Bool) (s ps : List Bytes) (x : Bytes)
    → ps ≡ reverse s
    → IsGood r s
    → IsProper x
    → x ≢ dots
    → clean (render_parts r ps ++ 47 ∷ x) ≡ record { rooted = r; parts = ps ++ x ∷ [] }
unfolding clean
clean_snoc r s ps x same h px name =
    let proper : AllProper ps = subst AllProper (sym same) (AllProper-reverse r s h) in
    rw
      (
        is_rooted-append (render_parts r ps) (47 ∷ x) (render_parts-ne_nil r ps proper),
        is_rooted-render r ps proper,
        split-append_any 47 (render_parts r ps) x,
        split-Lacks 47 x px.2,
        walk-append r [] (split 47 (render_parts r ps)) (x ∷ []),
        walk-render r ps (AllProper-AllLack ps proper),
        same,
        walk-reverse r s h,
      )
      (unfold walk in
        ap (λ ps. record { rooted = r; parts = ps })
          (ap reverse (step_put r x s (px, inl name, h)) ∙ reverse-cons x s))

-- A name that is put below a cleaned path is its last part.
pub clean-snoc :
    (p : FilePath) (x : Bytes)
    → IsClean p
    → IsProper x
    → x ≢ dots
    → clean (render p ++ 47 ∷ x) ≡ record { rooted = p.rooted; parts = p.parts ++ x ∷ [] }
unfolding render
clean-snoc p x (s, same, h) px name = clean_snoc p.rooted s p.parts x same h px name

pub snoc-IsClean :
    (p : FilePath) (x : Bytes)
    → IsClean p
    → IsProper x
    → x ≢ dots
    → IsClean (record { rooted = p.rooted; parts = p.parts ++ x ∷ [] })
snoc-IsClean p x (s, same, h) px name =
    (x ∷ s, ap (◌++ (x ∷ [])) same ∙ sym (reverse-cons x s), (px, inl name, h))

pub render-ne_nil : (p : FilePath) → IsClean p → render p ≢ []
unfolding render
render-ne_nil p (s, same, h) =
    render_parts-ne_nil p.rooted p.parts
      (subst AllProper (sym same) (AllProper-reverse p.rooted s h))

-- filepath.Join of a cleaned path and a proper name
pub join_paths-snoc :
    (p : FilePath) (x : Bytes)
    → IsClean p
    → IsProper x
    → x ≢ dots
    → join_paths (render p) x ≡ render (record { rooted = p.rooted; parts = p.parts ++ x ∷ [] })
unfolding join_paths
join_paths-snoc p x h px name = go (render p) x (clean-snoc p x h px name) px.0 (render-ne_nil p h)
  where
    go :
        (a x : Bytes)
        → clean (a ++ 47 ∷ x) ≡ record { rooted = p.rooted; parts = p.parts ++ x ∷ [] }
        → x ≢ []
        → a ≢ []
        → join_paths a x ≡ render (record { rooted = p.rooted; parts = p.parts ++ x ∷ [] })
    go a [] e h k = absurd (h refl)
    go [] (d ∷ x) e h k = absurd (k refl)
    go (c ∷ a) (d ∷ x) e h k = ap render e

pub clean-empty : clean [] ≡ record { rooted = false; parts = [] }
unfolding clean walk step split list_beq
clean-empty = refl

-- A proper name is clean as it is.
pub clean-name :
    (x : Bytes) → IsProper x → x ≢ dots → clean x ≡ record { rooted = false; parts = x ∷ [] }
unfolding clean walk
clean-name [] (some_text, _, _) name = absurd (some_text refl)
clean-name (c ∷ x) (some_text, no_dot, (apart, l)) name =
    let relative : is_rooted (c ∷ x) ≡ false = ground (arith, apart) in
    rw
      (
        relative,
        split-Lacks 47 (c ∷ x) (apart, l),
        step_put false (c ∷ x) [] ((some_text, no_dot, (apart, l)), inl name, tt),
      )
      refl

NoDots-snoc : (ps : List Bytes) (x : Bytes) → NoDots ps → x ≢ dots → NoDots (ps ++ x ∷ [])
NoDots-snoc [] x h k = (k, tt)
NoDots-snoc (y ∷ ps) x (p, h) k = (p, NoDots-snoc ps x h k)

-- What filepath.Join returns is empty, or printed as it is cleaned.
abbrev pub IsPrinted : Bytes → Type 0
IsPrinted s = (s ≡ []) ⊎ (s ≡ render (clean s))

render-IsPrinted : (s : Bytes) → IsPrinted (render (clean s))
render-IsPrinted s = inr (ap render (sym (clean-render (clean s) (clean-IsClean s))))

pub join_paths-IsPrinted : (a b : Bytes) → IsPrinted (join_paths a b)
unfolding join_paths
join_paths-IsPrinted [] [] = inl refl
join_paths-IsPrinted [] (d ∷ b) = render-IsPrinted (d ∷ b)
join_paths-IsPrinted (c ∷ a) [] = render-IsPrinted (c ∷ a)
join_paths-IsPrinted (c ∷ a) (d ∷ b) = render-IsPrinted ((c ∷ a) ++ 47 ∷ d ∷ b)

-- Joining a proper name adds it to the parts.
pub clean-join_paths :
    (dir x : Bytes)
    → IsPrinted dir
    → IsProper x
    → x ≢ dots
    → clean (join_paths dir x)
      ≡ record { rooted = (clean dir).rooted; parts = (clean dir).parts ++ x ∷ [] }
clean-join_paths dir x (inr same) px name =
    ap (λ d. clean (join_paths d x)) same
    ∙ ap clean (join_paths-snoc (clean dir) x (clean-IsClean dir) px name)
    ∙ clean-render _ (snoc-IsClean (clean dir) x (clean-IsClean dir) px name)
clean-join_paths dir x (inl none_there) px name = rw (none_there, clean-empty) (alone x px name)
  where
    alone :
        (x : Bytes)
        → IsProper x
        → x ≢ dots
        → clean (join_paths [] x) ≡ record { rooted = false; parts = x ∷ [] }
    alone [] (some_text, _, _) name = absurd (some_text refl)
    alone (d ∷ y) py ny =
        unfold join_paths in
        (clean-render (clean (d ∷ y)) (clean-IsClean (d ∷ y)) ∙ clean-name (d ∷ y) py ny)

-- A proper name below a path that lies within a base lies within it.
pub join_paths-IsWithin :
    (b : FilePath) (dir x : Bytes)
    → IsPrinted dir
    → IsProper x
    → x ≢ dots
    → IsWithin b (clean dir)
    → IsWithin b (clean (join_paths dir x))
join_paths-IsWithin b dir x printed px name (roots, (extra, e, free)) =
    subst (IsWithin b) (sym (clean-join_paths dir x printed px name)) (
      roots,
      (
        extra ++ x ∷ [],
        ap (◌++ (x ∷ [])) e ∙ append_assoc b.parts extra (x ∷ []),
        NoDots-snoc extra x free name,
      ),
    )
