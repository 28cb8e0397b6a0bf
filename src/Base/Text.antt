-- ===== src/Base/Text.antt =====
-- Go strings are byte strings: lists of numbers, and the functions of package strings that the
-- program calls on them. A literal is written `codes "text"`.
use Prim.Native.Nat.{ℕ}
use Prim.Native.Char.{code}
use Prim.Native.String.{String}
use mathlib.Core.Path.{◌≡◌, refl, sym, ap, ◌∙◌}
use mathlib.Core.Bool.{Bool, true, false}
use mathlib.Core.Logic.{◌≢◌, inl, inr}
use mathlib.Core.Option.{Option, none, some}
use mathlib.Core.List.{List, [], ◌∷◌, ◌++◌, reverse, append_assoc}
use native.Mathlib.Omega.{arith}
use go_bananas.Base.Tests.{eqb, Bool-cases, if◌then◌else◌}

abbrev pub Bytes : Type 0
Bytes = List ℕ

abbrev pub codes : String → Bytes
codes String.[] = []
codes (String.◌∷◌ c s) = code c ∷ codes s

-- strings.CutPrefix: what follows the prefix, if `s` has it.
unfoldable pub cut_prefix : Bytes → Bytes → Option Bytes
cut_prefix [] s = some s
cut_prefix (p ∷ ps) [] = none
cut_prefix (p ∷ ps) (c ∷ s) = let rest = cut_prefix ps s in if eqb p c then rest else none

-- strings.CutSuffix: what precedes the suffix, if `s` has it.
unfoldable pub cut_suffix : Bytes → Bytes → Option Bytes
unfolding cut_prefix
cut_suffix suffix s = elim (cut_prefix (reverse suffix) (reverse s)) [
  | none ↦ none
  | some rest ↦ some (reverse rest)
]

abbrev pub is_some {ℓ} : {A : Type ℓ} → Option A → Bool
is_some none = false
is_some (some a) = true

-- strings.HasPrefix and strings.HasSuffix
abbrev pub has_prefix : Bytes → Bytes → Bool
has_prefix prefix s = is_some (cut_prefix prefix s)

abbrev pub has_suffix : Bytes → Bytes → Bool
has_suffix suffix s = is_some (cut_suffix suffix s)

abbrev push_head : ℕ → List Bytes → List Bytes
push_head c [] = (c ∷ []) ∷ []
push_head c (w ∷ ws) = (c ∷ w) ∷ ws

-- strings.Split at a separator of one byte; the result is never empty.
unfoldable pub split : ℕ → Bytes → List Bytes
split sep [] = [] ∷ []
split sep (c ∷ s) = let rest = split sep s in if eqb c sep then [] ∷ rest else push_head c rest

-- strings.Join with a separator of one byte
unfoldable pub join : ℕ → List Bytes → Bytes
join sep [] = []
join sep (w ∷ []) = w
join sep (w ∷ v ∷ ws) = w ++ sep ∷ join sep (v ∷ ws)

push_head-ne_nil : (c : ℕ) (ws : List Bytes) → push_head c ws ≢ []
push_head-ne_nil c [] = ground arith
push_head-ne_nil c (w ∷ ws) = ground arith

join-push_head : (sep c : ℕ) (ws : List Bytes) → join sep (push_head c ws) ≡ c ∷ join sep ws
unfolding join
join-push_head sep c [] = refl
join-push_head sep c (w ∷ []) = refl
join-push_head sep c (w ∷ v ∷ ws) = refl

pub split-ne_nil : (sep : ℕ) (s : Bytes) → split sep s ≢ []
unfolding split
split-ne_nil sep [] = ground arith
split-ne_nil sep (c ∷ s) = ground (arith, push_head-ne_nil c (split sep s))

join-nil_cons : (sep : ℕ) (ws : List Bytes) → ws ≢ [] → join sep ([] ∷ ws) ≡ sep ∷ join sep ws
unfolding join
join-nil_cons sep [] h = absurd (h refl)
join-nil_cons sep (w ∷ ws) h = refl

-- Splitting and joining again changes nothing.
pub join-split : (sep : ℕ) (s : Bytes) → join sep (split sep s) ≡ s
unfolding split
join-split sep [] = unfold join in refl
join-split sep (c ∷ s) = ground (
  arith,
  join-push_head sep c (split sep s),
  join-split sep s,
  join-nil_cons sep (split sep s) (split-ne_nil sep s),
)

-- No byte of the text is the separator.
abbrev pub Lacks : ℕ → Bytes → Type 0
Lacks sep [] = Unit
Lacks sep (c ∷ s) = (c ≢ sep) × Lacks sep s

pub split-Lacks : (sep : ℕ) (w : Bytes) → Lacks sep w → split sep w ≡ w ∷ []
unfolding split
split-Lacks sep [] h = refl
split-Lacks sep (c ∷ w) (apart, h) = ground (arith, apart, split-Lacks sep w h)

pub split-append :
    (sep : ℕ) (w s : Bytes) → Lacks sep w → split sep (w ++ sep ∷ s) ≡ w ∷ split sep s
unfolding split
split-append sep [] s h = ground arith
split-append sep (c ∷ w) s (apart, h) = ground (arith, apart, split-append sep w s h)

-- No word holds the separator.
abbrev pub AllLack : ℕ → List Bytes → Type 0
AllLack sep [] = Unit
AllLack sep (w ∷ ws) = Lacks sep w × AllLack sep ws

pub split-join :
    (sep : ℕ) (w : Bytes) (ws : List Bytes)
    → AllLack sep (w ∷ ws)
    → split sep (join sep (w ∷ ws)) ≡ w ∷ ws
unfolding join
split-join sep w [] (h, _) = split-Lacks sep w h
split-join sep w (v ∷ ws) (h, rest) =
    split-append sep w (join sep (v ∷ ws)) h ∙ ap (◌∷◌ w) (split-join sep v ws rest)

AllLack-push_head :
    (sep c : ℕ) (ws : List Bytes) → c ≢ sep → AllLack sep ws → AllLack sep (push_head c ws)
AllLack-push_head sep c [] h k = ((h, tt), tt)
AllLack-push_head sep c (w ∷ ws) h (k, ks) = ((h, k), ks)

pub split-AllLack : (sep : ℕ) (s : Bytes) → AllLack sep (split sep s)
unfolding split
split-AllLack sep [] = (tt, tt)
split-AllLack sep (c ∷ s) = elim (Bool-cases (eqb c sep)) [
  | inl same ↦ rw same (tt, split-AllLack sep s)
  | inr other ↦
      rw other (AllLack-push_head sep c (split sep s) (ground (arith, other)) (split-AllLack sep s))
]

push_head-append :
    (c : ℕ) (ws vs : List Bytes) → ws ≢ [] → push_head c (ws ++ vs) ≡ push_head c ws ++ vs
push_head-append c [] vs h = absurd (h refl)
push_head-append c (w ∷ ws) vs h = refl

-- Splitting what is joined by one separator splits both sides.
pub split-append_any :
    (sep : ℕ) (a b : Bytes) → split sep (a ++ sep ∷ b) ≡ split sep a ++ split sep b
unfolding split
split-append_any sep [] b = ground arith
split-append_any sep (c ∷ a) b = ground (
  arith,
  split-append_any sep a b,
  push_head-append c (split sep a) (split sep b) (split-ne_nil sep a),
)

pub cut_prefix-append : (a b : Bytes) → cut_prefix a (a ++ b) ≡ some b
unfolding cut_prefix
cut_prefix-append [] b = refl
cut_prefix-append (c ∷ a) b = ground (arith, cut_prefix-append a b)

pub join-append :
    (sep : ℕ) (w : Bytes) (ws : List Bytes) (v : Bytes) (vs : List Bytes)
    → join sep ((w ∷ ws) ++ v ∷ vs) ≡ join sep (w ∷ ws) ++ sep ∷ join sep (v ∷ vs)
unfolding join
join-append sep w [] v vs = refl
join-append sep w (x ∷ ws) v vs =
    ap (λ t. w ++ sep ∷ t) (join-append sep x ws v vs)
    ∙ sym (append_assoc w (sep ∷ join sep (x ∷ ws)) (sep ∷ join sep (v ∷ vs)))
