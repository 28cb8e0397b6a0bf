-- ===== src/Secrets/Filesystem/RoundTrip.antt =====
-- secrets/filesystem.go: the reference that a version is created with is the one that it is read by.
use go_bananas.Base.{
  ℕ, ◌≡◌, ◌≢◌, ◌⊎◌, inl, inr, refl, sym, ap, ap₂, subst, ◌∙◌, Bool, true, false, Option, none, some,
  List, [], ◌∷◌, ◌++◌, Bytes, bytes_eq, codes, arith, cut_prefix-append, join, join-append,
}
use mathlib.Core.List.{append_assoc}
use go_bananas.Base.Dict
use go_bananas.Base.Dict.{lookup-insert}
use go_bananas.Paths
use go_bananas.Paths.{FilePath, dots, clean, render, render_parts, base_of, safe_join, join_paths}
use go_bananas.Paths.Clean.{IsClean, IsProper, clean-render}
use go_bananas.Paths.Within.{IsWithin, safe_join-IsWithin, safe_join-eq-inr, append_empty}
use go_bananas.Paths.Extend.{
  IsPrinted, join_paths-IsPrinted, join_paths-IsWithin, clean-join_paths, render-ne_nil,
  clean-empty,
}
use go_bananas.Secrets.Filesystem.{
  Files, System, get_secret_value, trim_prefix, written, made, create_in, create_secret_version,
}

-- The text of a cleaned path below a base that is neither the root directory nor the working one.
render_below :
    (r : Bool) (p : Bytes) (ps : List Bytes) (x : Bytes) (xs : List Bytes)
    → render_parts r ((p ∷ ps) ++ x ∷ xs) ≡ render_parts r (p ∷ ps) ++ 47 ∷ join 47 (x ∷ xs)
render_below true p ps x xs = ap (◌∷◌ 47) (join-append 47 p ps x xs)
render_below false p ps x xs = join-append 47 p ps x xs

trim_prefix-append : (a b : Bytes) → trim_prefix a (a ++ b) ≡ b
trim_prefix-append a b = rw (cut_prefix-append a b)

trim_slash : (b : Bytes) → trim_prefix (codes "/") (47 ∷ b) ≡ b
trim_slash b = trim_prefix-append (codes "/") b

join_snoc-ne_nil : (ps : List Bytes) (x : Bytes) → x ≢ [] → join 47 (ps ++ x ∷ []) ≢ []
unfolding join
join_snoc-ne_nil [] x h = h
join_snoc-ne_nil ([] ∷ []) x h = ground arith
join_snoc-ne_nil ((c ∷ w) ∷ []) x h = ground arith
join_snoc-ne_nil ([] ∷ v ∷ ps) x h = ground arith
join_snoc-ne_nil ((c ∷ w) ∷ v ∷ ps) x h = ground arith

separated-ne_nil : (a b : Bytes) → a ++ 47 ∷ b ≢ []
separated-ne_nil [] b = ground arith
separated-ne_nil (c ∷ a) b = ground arith

join_paths_text : (a b : Bytes) → a ≢ [] → b ≢ [] → join_paths a b ≡ render (clean (a ++ 47 ∷ b))
unfolding join_paths
join_paths_text [] b h k = absurd (h refl)
join_paths_text (c ∷ a) [] h k = absurd (k refl)
join_paths_text (c ∷ a) (d ∷ b) h k = refl

base_of_text : (a : Bytes) → a ≢ [] → base_of a ≡ a
base_of_text [] h = absurd (h refl)
base_of_text (c ∷ a) h = refl

-- A root that is written as it is cleaned, and is neither "/" nor ".".
abbrev pub IsPlainRoot : Bytes → FilePath → Type 0
IsPlainRoot root p = IsClean p × (p.parts ≢ []) × (root ≡ render p)

parts_below :
    (r : Bool) (ps : List Bytes) (x : Bytes) (xs : List Bytes)
    → ps ≢ []
    → render_parts r (ps ++ x ∷ xs) ≡ render_parts r ps ++ 47 ∷ join 47 (x ∷ xs)
parts_below r [] x xs h = absurd (h refl)
parts_below r (p ∷ ps) x xs h = render_below r p ps x xs

snoc_below :
    (r : Bool) (ps extra : List Bytes) (x : Bytes)
    → ps ≢ []
    → render_parts r (ps ++ (extra ++ x ∷ [])) ≡ render_parts r ps ++ 47 ∷ join 47 (extra ++ x ∷ [])
snoc_below r ps [] x h = parts_below r ps x [] h
snoc_below r ps (y ∷ extra) x h = parts_below r ps y (extra ++ x ∷ []) h

module _ (root stamp : Bytes) (p : FilePath) (plain : IsPlainRoot root p) (proper : IsProper stamp)
    (name : stamp ≢ dots) where
  root-ne_nil : root ≢ []
  root-ne_nil h = render-ne_nil p plain.0 (sym plain.2 ∙ h)

  clean-base : clean (base_of root) ≡ p
  clean-base = ap clean (base_of_text root root-ne_nil) ∙ ap clean plain.2 ∙ clean-render p plain.0

  -- The file of a version, and its reference.
  path_text :
      (dir : Bytes)
      → IsPrinted dir
      → IsWithin p (clean dir)
      → (ref : Bytes) × (ref ≢ []) × (join_paths dir stamp ≡ root ++ 47 ∷ ref)
  unfolding render
  path_text dir printed (roots, (extra, e, free)) = (
    join 47 (extra ++ stamp ∷ []),
    join_snoc-ne_nil extra stamp proper.0,
    text (join_paths-IsPrinted dir stamp),
  )
    where
      cleaned :
          clean (join_paths dir stamp)
          ≡ record { rooted = p.rooted; parts = p.parts ++ (extra ++ stamp ∷ []) }
      cleaned =
          clean-join_paths dir stamp printed proper name
          ∙ ap₂ (λ r ps. record { rooted = r; parts = ps }) roots
              (ap (◌++ (stamp ∷ [])) e ∙ append_assoc p.parts extra (stamp ∷ []))

      text :
          IsPrinted (join_paths dir stamp)
          → join_paths dir stamp ≡ root ++ 47 ∷ join 47 (extra ++ stamp ∷ [])
      text (inr same) =
          same
          ∙ ap render cleaned
          ∙ snoc_below p.rooted p.parts extra stamp plain.1
          ∙ ap (◌++ (47 ∷ join 47 (extra ++ stamp ∷ []))) (sym plain.2)
      text (inl empty) = absurd (
          plain.1 (
            append_empty p.parts (extra ++ stamp ∷ [])
              (ap (λ q. q.parts) (sym clean-empty ∙ ap clean (sym empty) ∙ cleaned))))

  read_back :
      (dir content : Bytes) (fs : Files)
      → IsPrinted dir
      → IsWithin p (clean dir)
      → get_secret_value root
          (trim_prefix (codes "/") (trim_prefix root (join_paths dir stamp)))
          (Dict.insert (join_paths dir stamp) content fs)
        ≡ inr content
  unfolding get_secret_value
  read_back dir content fs printed inside =
      rw
        (
          found,
          joined,
          lookup-insert (join_paths dir stamp) (join_paths dir stamp) content fs,
          (bytes_eq.equals_iff (join_paths dir stamp) (join_paths dir stamp)).1 refl,
        )
        refl
    where
      ref : Bytes
      ref = (path_text dir printed inside).0

      text : join_paths dir stamp ≡ root ++ 47 ∷ ref
      text = (path_text dir printed inside).2

      found : trim_prefix (codes "/") (trim_prefix root (join_paths dir stamp)) ≡ ref
      found =
          ap (λ t. trim_prefix (codes "/") (trim_prefix root t)) text
          ∙ ap (trim_prefix (codes "/")) (trim_prefix-append root (47 ∷ ref))
          ∙ trim_slash ref

      same : join_paths root ref ≡ join_paths dir stamp
      same =
          join_paths_text root ref root-ne_nil (path_text dir printed inside).1
          ∙ ap (λ t. render (clean t)) (sym text)
          ∙ printed_again (join_paths-IsPrinted dir stamp)
        where
          printed_again :
              IsPrinted (join_paths dir stamp)
              → render (clean (join_paths dir stamp)) ≡ join_paths dir stamp
          printed_again (inr e) = sym e
          printed_again (inl e) = absurd (separated-ne_nil root ref (sym text ∙ e))

      joined : safe_join root ref ≡ inr (join_paths dir stamp)
      joined =
          (safe_join-IsWithin root ref).0.1 (
            subst (λ t. IsWithin (clean (base_of root)) (clean t)) (sym same)
              (subst (λ b. IsWithin b (clean (join_paths dir stamp))) (sym clean-base)
                (join_paths-IsWithin p dir stamp printed proper name inside)))
          ∙ ap inr same

  -- A version that is created in a root that is written as it is cleaned, and is neither the root
  -- directory nor the working one, is read back by the reference that its creation returned. A stamp
  -- is a proper file name.
  pub get-create_version :
      (s : System) (parent content ref : Bytes) (fs fs' : Files)
      → create_secret_version s root parent content stamp fs ≡ (inr ref, fs')
      → get_secret_value root ref fs' ≡ inr content
  unfolding create_secret_version
  get-create_version s parent content ref fs fs' h = go (safe_join root parent) refl h
    where
      write :
          (dir : Bytes)
          → IsPrinted dir
          → IsWithin p (clean dir)
          → (o : Option ℕ) → written root (join_paths dir stamp) content fs o ≡ (inr ref, fs')
          → get_secret_value root ref fs' ≡ inr content
      write dir printed inside (some e) k = absurd (ground arith)
      write dir printed inside none k =
          let e : ref ≡ trim_prefix (codes "/") (trim_prefix root (join_paths dir stamp)) = cc in
          let f : fs' ≡ Dict.insert (join_paths dir stamp) content fs = cc in
          rw (e, f) (read_back dir content fs printed inside)

      make :
          (dir : Bytes)
          → IsPrinted dir
          → IsWithin p (clean dir)
          → (o : Option ℕ) → made s root dir stamp content fs o ≡ (inr ref, fs')
          → get_secret_value root ref fs' ≡ inr content
      make dir printed inside (some e) k = absurd (ground arith)
      make dir printed inside none k =
          write dir printed inside (s.write_file (join_paths dir stamp)) k

      go :
          (r : Paths.Error ⊎ Bytes)
          → safe_join root parent ≡ r
          → create_in s root stamp content fs r ≡ (inr ref, fs')
          → get_secret_value root ref fs' ≡ inr content
      go (inl e) joined k = absurd (ground arith)
      go (inr dir) joined k =
          let (same, inside) = safe_join-eq-inr root parent dir joined in
          make dir (subst IsPrinted (sym same) (join_paths-IsPrinted root parent))
            (subst (λ b. IsWithin b (clean dir)) clean-base inside) (s.mkdir_all dir) k
