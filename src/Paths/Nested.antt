-- ===== src/Paths/Nested.antt =====
-- Go's path/filepath: joining in two ways, a name below a key below a root.
use go_bananas.Base.{
  ◌≡◌, ◌≢◌, inl, inr, refl, sym, ap, subst, ◌∙◌, Bool, true, false, List, [], ◌∷◌, ◌++◌, Bytes,
  arith, split, join, split-Lacks, split-AllLack, split-join, split-append_any, AllLack, list_beq,
}
use mathlib.Core.List.{reverse, reverse-cons}
use go_bananas.Paths.{
  FilePath, dots, step, walk, is_rooted, clean, base_of, render_parts, render, join_paths,
  safe_join,
}
use go_bananas.Paths.Within.{IsWithin, safe_join-IsWithin, safe_join-eq-inr}
use go_bananas.Paths.Clean.{
  IsClean, IsProper, IsGood, clean-IsClean, clean-render, clean-AllProper, AllProper-AllLack,
  step_put, walk-append, walk-IsGood,
}
use go_bananas.Paths.Extend.{
  IsPrinted, is_rooted-append, join_paths-IsPrinted, join_paths-IsWithin, clean-join_paths,
  clean-empty, clean-name,
}

abbrev pub snoc : FilePath → Bytes → FilePath
snoc p x = record { rooted = p.rooted; parts = p.parts ++ x ∷ [] }

-- Walking on from any stack over a printed path is walking over its parts.
walk_printed :
    (rooted r : Bool) (s ps : List Bytes)
    → AllLack 47 ps
    → walk rooted s (split 47 (render_parts r ps)) ≡ walk rooted s ps
unfolding split walk step list_beq
walk_printed rooted true s [] h = unfold join in refl
walk_printed rooted true s (p ∷ ps) h = ap (walk rooted s) (split-join 47 p ps h)
walk_printed rooted false s [] h = refl
walk_printed rooted false s (p ∷ ps) h = ap (walk rooted s) (split-join 47 p ps h)

abbrev stack : Bytes → List Bytes
stack s = walk (is_rooted s) [] (split 47 s)

walk_proper :
    (r : Bool) (s : List Bytes) (x : Bytes)
    → IsGood r s
    → IsProper x
    → x ≢ dots
    → walk r s (x ∷ []) ≡ x ∷ s
unfolding walk
walk_proper r s x h px name = step_put r x s (px, inl name, h)

-- A proper name after a separator is one more part.
clean_append :
    (s x : Bytes) → s ≢ [] → IsProper x → x ≢ dots → clean (s ++ 47 ∷ x) ≡ snoc (clean s) x
unfolding clean
clean_append s x some_text px name =
    rw (is_rooted-append s (47 ∷ x) some_text, split-append_any 47 s x, split-Lacks 47 x px.2)
      (ap (λ ps. record { rooted = is_rooted s; parts = reverse ps })
          (walk-append (is_rooted s) [] (split 47 s) (x ∷ [])
            ∙ walk_proper (is_rooted s) _ x (walk-IsGood (is_rooted s) [] _ (split-AllLack 47 s) tt)
                px name)
        ∙ ap (λ ps. record { rooted = is_rooted s; parts = ps })
            (reverse-cons x (walk (is_rooted s) [] (split 47 s))))

-- filepath.Join of any path and a proper name
pub clean-join_name :
    (key x : Bytes) → IsProper x → x ≢ dots → clean (join_paths key x) ≡ snoc (clean key) x
clean-join_name [] [] px name = absurd (px.0 refl)
clean-join_name [] (c ∷ x) px name =
    unfold join_paths in
    (clean-render (clean (c ∷ x)) (clean-IsClean (c ∷ x))
      ∙ clean-name (c ∷ x) px name
      ∙ ap (λ p. snoc p (c ∷ x)) (sym clean-empty))
clean-join_name (c ∷ key) [] px name = absurd (px.0 refl)
clean-join_name (c ∷ key) (d ∷ x) px name =
    unfold join_paths in
    (clean-render (clean ((c ∷ key) ++ 47 ∷ d ∷ x)) (clean-IsClean _)
      ∙ clean_append (c ∷ key) (d ∷ x) (ground arith) px name)

-- filepath.Join of one element
pub clean-join_one : (key : Bytes) → clean (join_paths [] key) ≡ clean key
unfolding join_paths
clean-join_one [] = refl
clean-join_one (c ∷ key) = clean-render (clean (c ∷ key)) (clean-IsClean (c ∷ key))

abbrev below_root : Bytes → List Bytes → FilePath
below_root root ps = record {
  rooted = is_rooted root;
  parts = reverse (walk (is_rooted root) (stack root) ps);
}

walk-clean :
    (rooted : Bool) (s : List Bytes) (b : Bytes)
    → b ≡ render (clean b)
    → walk rooted s (split 47 b) ≡ walk rooted s (clean b).parts
walk-clean rooted s b e =
    ap (λ t. walk rooted s (split 47 t)) e
    ∙ unfold render in
      walk_printed rooted (clean b).rooted s (clean b).parts
        (AllProper-AllLack _ (clean-AllProper (clean b) (clean-IsClean b)))

below_snoc :
    (root : Bytes) (p : FilePath) (x : Bytes)
    → IsClean p
    → IsProper x
    → x ≢ dots
    → below_root root (p.parts ++ x ∷ []) ≡ snoc (below_root root p.parts) x
below_snoc root p x h px name =
    ap (λ ps. record { rooted = is_rooted root; parts = reverse ps })
      (walk-append (is_rooted root) (stack root) p.parts (x ∷ [])
        ∙ walk_proper (is_rooted root) _ x
            (walk-IsGood (is_rooted root) (stack root) p.parts
              (AllProper-AllLack _ (clean-AllProper p h))
              (walk-IsGood (is_rooted root) [] _ (split-AllLack 47 root) tt))
            px name)
    ∙ ap (λ ps. record { rooted = is_rooted root; parts = ps })
        (reverse-cons x (walk (is_rooted root) (stack root) p.parts))

snoc-ne_nil : (ps : List Bytes) (x : Bytes) → ps ++ x ∷ [] ≢ []
snoc-ne_nil [] x = ground arith
snoc-ne_nil (y ∷ ps) x = ground arith

snoc_empty : (p : FilePath) (x a : Bytes) → a ≡ [] → clean a ≢ snoc p x
snoc_empty p x a e h =
    snoc-ne_nil p.parts x
      (sym (ap (λ q. q.parts) h) ∙ ap (λ q. (clean q).parts) e ∙ ap (λ q. q.parts) clean-empty)

clean-join_printed :
    (root b : Bytes)
    → root ≢ []
    → IsPrinted b
    → clean (join_paths root b) ≡ below_root root (clean b).parts
unfolding join_paths
clean-join_printed [] b h printed = absurd (h refl)
clean-join_printed (c ∷ root) [] h printed =
    clean-render (clean (c ∷ root)) (clean-IsClean (c ∷ root))
    ∙ unfold clean in (unfold split in unfold list_beq in unfold step in unfold walk in refl)
clean-join_printed (c ∷ root) (d ∷ b) h (inl e) = absurd (ground (arith, e))
clean-join_printed (c ∷ root) (d ∷ b) h (inr e) =
    clean-render (clean ((c ∷ root) ++ 47 ∷ d ∷ b)) (clean-IsClean _)
    ∙ unfold clean in
      (rw
        (
          split-append_any 47 (c ∷ root) (d ∷ b),
          walk-append (is_rooted (c ∷ root)) [] (split 47 (c ∷ root)) (split 47 (d ∷ b)),
        )
        refl)
      ∙ ap (λ ps. record { rooted = is_rooted (c ∷ root); parts = reverse ps })
          (walk-clean (is_rooted (c ∷ root)) (stack (c ∷ root)) (d ∷ b) e)

-- A name below a key below a root is the name below what the key is below the root.
clean-join_nested :
    (root key x : Bytes)
    → IsProper x
    → x ≢ dots
    → clean (join_paths root (join_paths key x))
      ≡ snoc (clean (join_paths root (join_paths [] key))) x
clean-join_nested [] key x px name =
    clean-join_one (join_paths key x)
    ∙ clean-join_name key x px name
    ∙ ap (λ p. snoc p x) (sym (clean-join_one (join_paths [] key) ∙ clean-join_one key))
clean-join_nested (c ∷ root) key x px name =
    clean-join_printed (c ∷ root) (join_paths key x) (ground arith) (join_paths-IsPrinted key x)
    ∙ ap (λ p. below_root (c ∷ root) p.parts) (clean-join_name key x px name)
    ∙ below_snoc (c ∷ root) (clean key) x (clean-IsClean key) px name
    ∙ ap (λ p. snoc p x)
        (sym (
          clean-join_printed (c ∷ root) (join_paths [] key) (ground arith)
            (join_paths-IsPrinted [] key)
          ∙ ap (λ p. below_root (c ∷ root) p.parts) (clean-join_one key)))

same_text :
    (a b : Bytes) (p : FilePath) (x : Bytes)
    → IsPrinted a
    → IsPrinted b
    → clean a ≡ snoc p x
    → clean b ≡ clean a
    → a ≡ b
same_text a b p x (inr e) (inr f) h k = e ∙ ap render (sym k) ∙ sym f
same_text a b p x (inl e) f h k = absurd (snoc_empty p x a e h)
same_text a b p x (inr e) (inl f) h k = absurd (snoc_empty p x b f (k ∙ h))

-- The two ways of joining give the same text.
pub join_nested :
    (root key x : Bytes)
    → IsProper x
    → x ≢ dots
    → join_paths root (join_paths key x) ≡ join_paths (join_paths root (join_paths [] key)) x
join_nested root key x px name =
    same_text _ _ (clean (join_paths root (join_paths [] key))) x
      (join_paths-IsPrinted root (join_paths key x)) (join_paths-IsPrinted _ x)
      (clean-join_nested root key x px name)
      (clean-join_paths _ x (join_paths-IsPrinted root (join_paths [] key)) px name
        ∙ sym (clean-join_nested root key x px name))

-- Where SafeJoin accepts a key it accepts each name below it.
pub safe_join-nested :
    (root key x dir : Bytes)
    → IsProper x
    → x ≢ dots
    → safe_join root (join_paths [] key) ≡ inr dir
    → safe_join root (join_paths key x) ≡ inr (join_paths dir x)
safe_join-nested root key x dir px name h =
    let (same, inside) = safe_join-eq-inr root (join_paths [] key) dir h in
    let text : join_paths root (join_paths key x) ≡ join_paths dir x =
      join_nested root key x px name ∙ ap (λ d. join_paths d x) (sym same) in
    (safe_join-IsWithin root (join_paths key x)).0.1 (
      subst (λ t. IsWithin (clean (base_of root)) (clean t)) (sym text)
        (join_paths-IsWithin (clean (base_of root)) dir x
          (subst IsPrinted (sym same) (join_paths-IsPrinted root (join_paths [] key))) px name
          inside))
    ∙ ap inr text
