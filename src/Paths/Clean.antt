-- ===== src/Paths/Clean.antt =====
-- What filepath.Clean leaves: proper parts, with ".." at the front only.
use go_bananas.Base.{
  ◌≡◌, ◌≢◌, ◌⊎◌, inl, inr, refl, sym, ap, subst, Bool, true, false, ◌||◌, List, [], ◌∷◌, ◌++◌,
  Bytes, bytes_eq, codes, ◌==◌, arith, split, join, Bool-cases, Lacks, AllLack, split-join,
  split-AllLack, list_beq,
}
use mathlib.Core.List.{reverse, reverse-cons}
use go_bananas.Paths.{FilePath, dots, up, step, walk, is_rooted, clean, render_parts, render}

abbrev pub AllDots : List Bytes → Type 0
AllDots [] = Unit
AllDots (x ∷ s) = (x ≡ dots) × AllDots s

-- A part that cleaning keeps
abbrev pub IsProper : Bytes → Type 0
IsProper x = (x ≢ []) × (x ≢ codes ".") × Lacks 47 x

-- A stack of the walk: ".." stands below all other parts, and not in a rooted path.
abbrev pub IsGood : Bool → List Bytes → Type 0
IsGood r [] = Unit
IsGood r (x ∷ s) = IsProper x × ((x ≢ dots) ⊎ ((r ≡ false) × AllDots s)) × IsGood r s

dots-IsProper : IsProper dots
dots-IsProper = (ground arith, ground arith, (ground arith, (ground arith, tt)))

up-IsGood : (r : Bool) (s : List Bytes) → IsGood r s → IsGood r (up r s)
up-IsGood true [] h = tt
up-IsGood false [] h = (dots-IsProper, inr (refl, tt), tt)
up-IsGood r (x ∷ s) (p, inl other, h) =
    rw (let e : (x == dots) ≡ false = ground (arith, bytes_eq.equals_iff x dots) in e) h
up-IsGood r (x ∷ s) (p, inr (free, below), h) = elim (Bool-cases (x == dots)) [
  | inl top ↦ rw top (
    dots-IsProper,
    inr (free, ((bytes_eq.equals_iff x dots).0 top, below)),
    (p, inr (free, below), h),
  )
  | inr top ↦ rw top h
]

step-IsGood :
    (r : Bool) (s : List Bytes) (x : Bytes) → Lacks 47 x → IsGood r s → IsGood r (step r s x)
unfolding step
step-IsGood r s x l h = elim (Bool-cases (x == [] || x == codes ".")) [
  | inl skip ↦ rw skip h
  | inr keep ↦ elim (Bool-cases (x == dots)) [
    | inl up_one ↦ rw (keep, up_one) (up-IsGood r s h)
    | inr name ↦
        rw (keep, name)
          (
            (
              ground (arith, keep, bytes_eq.equals_iff x []),
              ground (arith, keep, bytes_eq.equals_iff x (codes ".")),
              l,
            ),
            inl (ground (arith, name, bytes_eq.equals_iff x dots)),
            h,
          )
  ]
]

pub walk-IsGood :
    (r : Bool) (s ps : List Bytes) → AllLack 47 ps → IsGood r s → IsGood r (walk r s ps)
unfolding walk
walk-IsGood r s [] l h = h
walk-IsGood r s (p ∷ ps) (l, ls) h = walk-IsGood r (step r s p) ps ls (step-IsGood r s p l h)

-- A part that fits on the stack is put there.
pub step_put : (r : Bool) (x : Bytes) (s : List Bytes) → IsGood r (x ∷ s) → step r s x ≡ x ∷ s
unfolding step
step_put r x s ((some_text, no_dot, _), inl other, h) = ground (
  arith,
  some_text,
  no_dot,
  other,
  bytes_eq.equals_iff x [],
  bytes_eq.equals_iff x (codes "."),
  bytes_eq.equals_iff x dots,
)
step_put r x [] ((some_text, no_dot, _), inr (free, _), h) = ground (
  arith,
  some_text,
  no_dot,
  free,
  bytes_eq.equals_iff x [],
  bytes_eq.equals_iff x (codes "."),
  bytes_eq.equals_iff x dots,
)
step_put r x (y ∷ s) ((some_text, no_dot, _), inr (free, (top, _)), h) = ground (
  arith,
  some_text,
  no_dot,
  free,
  top,
  bytes_eq.equals_iff x [],
  bytes_eq.equals_iff x (codes "."),
  bytes_eq.equals_iff x dots,
  bytes_eq.equals_iff y dots,
)

pub walk-append : (r : Bool) (s ps qs : List Bytes) → walk r s (ps ++ qs) ≡ walk r (walk r s ps) qs
unfolding walk
walk-append r s [] qs = refl
walk-append r s (p ∷ ps) qs = walk-append r (step r s p) ps qs

pub walk-reverse : (r : Bool) (s : List Bytes) → IsGood r s → walk r [] (reverse s) ≡ s
walk-reverse r [] h = unfold walk in refl
walk-reverse r (x ∷ s) h =
    rw (reverse-cons x s, walk-append r [] (reverse s) (x ∷ []), walk-reverse r s h.2)
      (unfold walk in step_put r x s h)

-- The parts of a cleaned path, first part first.
abbrev pub AllProper : List Bytes → Type 0
AllProper [] = Unit
AllProper (x ∷ ps) = IsProper x × AllProper ps

pub AllProper-AllLack : (ps : List Bytes) → AllProper ps → AllLack 47 ps
AllProper-AllLack [] h = tt
AllProper-AllLack (x ∷ ps) (p, h) = (p.2, AllProper-AllLack ps h)

pub AllProper-snoc :
    (ps : List Bytes) (x : Bytes) → AllProper ps → IsProper x → AllProper (ps ++ x ∷ [])
AllProper-snoc [] x h k = (k, tt)
AllProper-snoc (y ∷ ps) x (p, h) k = (p, AllProper-snoc ps x h k)

pub AllProper-reverse : (r : Bool) (s : List Bytes) → IsGood r s → AllProper (reverse s)
AllProper-reverse r [] h = tt
AllProper-reverse r (x ∷ s) (p, _, h) =
    rw (reverse-cons x s) (AllProper-snoc (reverse s) x (AllProper-reverse r s h) p)

pub is_rooted-render :
    (r : Bool) (ps : List Bytes) → AllProper ps → is_rooted (render_parts r ps) ≡ r
unfolding join
is_rooted-render true ps h = refl
is_rooted-render false [] h = refl
is_rooted-render false ([] ∷ ps) ((some_text, _, _), h) = absurd (some_text refl)
is_rooted-render false ((c ∷ w) ∷ []) ((_, _, (apart, _)), h) = ground (arith, apart)
is_rooted-render false ((c ∷ w) ∷ q ∷ ps) ((_, _, (apart, _)), h) = ground (arith, apart)

pub walk-render :
    (r : Bool) (ps : List Bytes)
    → AllLack 47 ps
    → walk r [] (split 47 (render_parts r ps)) ≡ walk r [] ps
unfolding split walk step list_beq
walk-render true [] h = unfold join in refl
walk-render true (p ∷ ps) h = ap (walk true []) (split-join 47 p ps h)
walk-render false [] h = refl
walk-render false (p ∷ ps) h = ap (walk false []) (split-join 47 p ps h)

-- A path as cleaning leaves it
abbrev pub IsClean : FilePath → Type 0
IsClean p = (s : List Bytes) × (p.parts ≡ reverse s) × IsGood p.rooted s

pub clean-IsClean : (s : Bytes) → IsClean (clean s)
unfolding clean
clean-IsClean s = (
  walk (is_rooted s) [] (split 47 s),
  refl,
  walk-IsGood (is_rooted s) [] (split 47 s) (split-AllLack 47 s) tt,
)

clean_parts :
    (r : Bool) (s ps : List Bytes)
    → ps ≡ reverse s
    → IsGood r s
    → clean (render_parts r ps) ≡ record { rooted = r; parts = ps }
unfolding clean
clean_parts r s ps same h =
    rw
      (
        is_rooted-render r ps (subst AllProper (sym same) (AllProper-reverse r s h)),
        walk-render r ps
            (AllProper-AllLack ps (subst AllProper (sym same) (AllProper-reverse r s h))),
        same,
        walk-reverse r s h,
      )
      refl

-- Cleaning what is clean changes nothing.
pub clean-render : (p : FilePath) → IsClean p → clean (render p) ≡ p
unfolding render
clean-render p (s, same, h) = clean_parts p.rooted s p.parts same h

abbrev pub NoDots : List Bytes → Type 0
NoDots [] = Unit
NoDots (x ∷ ps) = (x ≢ dots) × NoDots ps

-- Behind a part that is not ".." there is no "..".
abbrev pub DotsFirst : List Bytes → Type 0
DotsFirst [] = Unit
DotsFirst (x ∷ ps) = (NoDots ps ⊎ (x ≡ dots)) × DotsFirst ps

NoDots-snoc : (ps : List Bytes) (x : Bytes) → NoDots ps → x ≢ dots → NoDots (ps ++ x ∷ [])
NoDots-snoc [] x h k = (k, tt)
NoDots-snoc (y ∷ ps) x (p, h) k = (p, NoDots-snoc ps x h k)

AllDots-snoc : (ps : List Bytes) (x : Bytes) → AllDots ps → x ≡ dots → AllDots (ps ++ x ∷ [])
AllDots-snoc [] x h k = (k, tt)
AllDots-snoc (y ∷ ps) x (p, h) k = (p, AllDots-snoc ps x h k)

AllDots-reverse : (s : List Bytes) → AllDots s → AllDots (reverse s)
AllDots-reverse [] h = tt
AllDots-reverse (x ∷ s) (e, h) =
    rw (reverse-cons x s) (AllDots-snoc (reverse s) x (AllDots-reverse s h) e)

DotsFirst-snoc :
    (ps : List Bytes) (x : Bytes)
    → DotsFirst ps
    → (x ≢ dots) ⊎ AllDots ps
    → DotsFirst (ps ++ x ∷ [])
DotsFirst-snoc [] x h k = (inl tt, tt)
DotsFirst-snoc (y ∷ ps) x (inl free, h) (inl apart) =
    (inl (NoDots-snoc ps x free apart), DotsFirst-snoc ps x h (inl apart))
DotsFirst-snoc (y ∷ ps) x (inr e, h) (inl apart) = (inr e, DotsFirst-snoc ps x h (inl apart))
DotsFirst-snoc (y ∷ ps) x (_, h) (inr (e, below)) = (inr e, DotsFirst-snoc ps x h (inr below))

DotsFirst-reverse : (r : Bool) (s : List Bytes) → IsGood r s → DotsFirst (reverse s)
DotsFirst-reverse r [] h = tt
DotsFirst-reverse r (x ∷ s) (_, inl apart, h) =
    rw (reverse-cons x s) (DotsFirst-snoc (reverse s) x (DotsFirst-reverse r s h) (inl apart))
DotsFirst-reverse r (x ∷ s) (_, inr (_, below), h) =
    rw (reverse-cons x s)
      (DotsFirst-snoc (reverse s) x (DotsFirst-reverse r s h) (inr (AllDots-reverse s below)))

pub clean-DotsFirst : (p : FilePath) → IsClean p → DotsFirst p.parts
clean-DotsFirst p (s, same, h) = subst DotsFirst (sym same) (DotsFirst-reverse p.rooted s h)

pub clean-AllProper : (p : FilePath) → IsClean p → AllProper p.parts
clean-AllProper p (s, same, h) = subst AllProper (sym same) (AllProper-reverse p.rooted s h)
