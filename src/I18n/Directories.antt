-- ===== src/I18n/Directories.antt =====
-- i18n/i18n.go: the directory that a hint names, and the language that the matcher gives for it.
use go_bananas.Base.{
  ℕ, ◌≡◌, ◌⊎◌, inl, inr, refl, sym, subst, ◌∙◌, ap, Option, none, some, List, [], ◌∷◌, ◌++◌, Bytes,
  arith, split, join, Lacks, AllLack, split-append, split-Lacks, split-AllLack, join-split,
}
use go_bananas.Base.Result.{Result, ok, err, panic, ◌>>=◌}
use go_bananas.I18n.{LocaleMap, matched, two_parts, format_lang_region, canonicalize}

-- A language and a region, with one dash between them.
abbrev pub IsPair : Bytes → Bytes → Bytes → Type 0
IsPair hint lang region = (hint ≡ lang ++ 45 ∷ region) × Lacks 45 lang × Lacks 45 region

-- The hint names a directory: a pair as "pt_BR", with the language in lower and the region in upper
-- case, and anything else as it is.
abbrev pub IsDirectory : (to_lower to_upper : Bytes → Bytes) → Bytes → Bytes → Type 0
IsDirectory to_lower to_upper hint name =
    ((lang : Bytes) × (region : Bytes) × IsPair hint lang region
      × (name ≡ to_lower lang ++ 95 ∷ to_upper region))
    ⊎ (((lang region : Bytes) → IsPair hint lang region → ⊥) × (name ≡ hint))

IsPair-split :
    (hint lang region : Bytes) → IsPair hint lang region → split 45 hint ≡ lang ∷ region ∷ []
IsPair-split hint lang region (e, l, r) =
    ap (split 45) e ∙ split-append 45 lang region l ∙ ap (◌∷◌ lang) (split-Lacks 45 region r)

split-IsPair :
    (hint lang region : Bytes) → split 45 hint ≡ lang ∷ region ∷ [] → IsPair hint lang region
unfolding join
split-IsPair hint lang region e =
    let (l, (r, _)) : AllLack 45 (lang ∷ region ∷ []) =
      subst (AllLack 45) e (split-AllLack 45 hint) in
    (sym (join-split 45 hint) ∙ ap (join 45) e, l, r)

module _ (to_lower to_upper : Bytes → Bytes) where
  two_parts-IsDirectory :
      (hint : Bytes) (ws : List Bytes)
      → split 45 hint ≡ ws
      → IsDirectory to_lower to_upper hint (two_parts to_lower to_upper hint ws)
  unfolding join
  two_parts-IsDirectory hint (lang ∷ region ∷ []) e =
      inl (lang, region, split-IsPair hint lang region e, refl)
  two_parts-IsDirectory hint [] e =
      inr ((λ l r p. absurd (ground (arith, sym e ∙ IsPair-split hint l r p))), refl)
  two_parts-IsDirectory hint (w ∷ []) e =
      inr ((λ l r p. absurd (ground (arith, sym e ∙ IsPair-split hint l r p))), refl)
  two_parts-IsDirectory hint (w ∷ v ∷ u ∷ ws) e =
      inr ((λ l r p. absurd (ground (arith, sym e ∙ IsPair-split hint l r p))), refl)

  pub format-IsDirectory :
      (hint : Bytes)
      → IsDirectory to_lower to_upper hint (format_lang_region to_lower to_upper hint)
  unfolding format_lang_region
  format-IsDirectory hint = two_parts-IsDirectory hint (split 45 hint) refl

  -- A hint names one directory.
  IsDirectory-unique :
      (hint a b : Bytes)
      → IsDirectory to_lower to_upper hint a
      → IsDirectory to_lower to_upper hint b
      → a ≡ b
  IsDirectory-unique hint a b (inl (l, r, p, e)) (inl (l', r', p', e')) =
      let same : ◌≡◌ {A = List Bytes} (l ∷ r ∷ []) (l' ∷ r' ∷ []) =
        sym (IsPair-split hint l r p) ∙ IsPair-split hint l' r' p' in
      cc
  IsDirectory-unique hint a b (inl (l, r, p, e)) (inr (lacks, e')) = absurd (lacks l r p)
  IsDirectory-unique hint a b (inr (lacks, e)) (inl (l, r, p, e')) = absurd (lacks l r p)
  IsDirectory-unique hint a b (inr (lacks, e)) (inr (lacks', e')) = e ∙ sym e'

  pub IsDirectory-eq :
      (hint name : Bytes)
      → IsDirectory to_lower to_upper hint name
      → name ≡ format_lang_region to_lower to_upper hint
  IsDirectory-eq hint name h = IsDirectory-unique hint name _ h (format-IsDirectory hint)

matched-eq-ok :
    (hint name : Bytes) (r : Result ℕ (Option Bytes))
    → matched hint r ≡ ok name
    → r ≡ ok (some name)
matched-eq-ok hint name (ok (some base)) h = ground (arith, h)
matched-eq-ok hint name (ok none) h = absurd (ground (arith, h))
matched-eq-ok hint name (err e) h = absurd (ground (arith, h))
matched-eq-ok hint name panic h = absurd (ground (arith, h))

module _ {Translator Tag : Type 0} (to_lower to_upper : Bytes → Bytes)
    (parse_accept_language : Bytes → Result ℕ (List Tag))
    (match_base : List Bytes → List Tag → Result ℕ (Option Bytes)) where
  -- The hint lists languages, and the matcher gives a locale with this base language for them.
  abbrev pub IsMatched : LocaleMap Translator → Bytes → Bytes → Type 0
  IsMatched l hint name =
      (tags : List Tag) × (parse_accept_language hint ≡ ok tags)
      × (match_base l.names tags ≡ ok (some name))

  pub canonicalize-IsMatched :
      (l : LocaleMap Translator) (hint name : Bytes)
      → canonicalize to_lower to_upper parse_accept_language match_base l hint ≡ ok name
      → IsMatched l hint name
  unfolding canonicalize
  canonicalize-IsMatched l hint name h = go (parse_accept_language hint) refl h
    where
      go :
          (r : Result ℕ (List Tag))
          → parse_accept_language hint ≡ r
          → matched hint (r >>= match_base l.names) ≡ ok name
          → IsMatched l hint name
      go (ok tags) e k = (tags, e, matched-eq-ok hint name _ k)
      go (err c) e k = absurd (ground (arith, k))
      go panic e k = absurd (ground (arith, k))

  pub IsMatched-canonicalize :
      (l : LocaleMap Translator) (hint name : Bytes)
      → IsMatched l hint name
      → canonicalize to_lower to_upper parse_accept_language match_base l hint ≡ ok name
  unfolding canonicalize
  IsMatched-canonicalize l hint name (tags, parses, gives) = (rw (parses, gives) refl)
