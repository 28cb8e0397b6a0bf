-- ===== src/I18n/Matches.antt =====
-- i18n/i18n.go: the first hint that matches decides.
use go_bananas.Base.{
  ℕ, ◌≡◌, ◌≢◌, ◌⊎◌, inl, inr, refl, sym, ap, subst, ◌∙◌, Bool, true, false, Option, none, some,
  List, [], ◌∷◌, ◌++◌, Bytes, bytes_eq, list_beq, arith, ◌==◌, if◌then◌else◌, All,
}
use go_bananas.Base.Dict
use go_bananas.Base.Result.{Result, ok, err, panic}
use go_bananas.I18n.Directories.{
  IsDirectory, IsMatched, format-IsDirectory, IsDirectory-eq, canonicalize-IsMatched,
  IsMatched-canonicalize,
}
use go_bananas.I18n.{
  LocaleMap, Error, found_as, found_canonical, format_lang_region, or_canonical, try_hint,
  or_default, lookup_hints, lookup,
}

otherwise {ℓ} : {A : Type ℓ} (b : Bool) (x y : A) → b ≡ false → (if b then x else y) ≡ y
otherwise true x y h = absurd (ground (arith, h))
otherwise false x y h = refl

module _ {Translator Tag : Type 0} (to_lower to_upper : Bytes → Bytes)
    (parse_accept_language : Bytes → Result ℕ (List Tag))
    (match_base : List Bytes → List Tag → Result ℕ (Option Bytes)) where
  -- A hint stands for a loaded locale: for the one whose directory it names, or if that is not
  -- loaded, for the one whose name is the base language that the matcher gives.
  abbrev pub StandsFor : LocaleMap Translator → Bytes → Translator × Bytes → Type 0
  StandsFor l hint (locale, name) =
      (hint ≢ [])
      × (Dict.lookup name l.data' ≡ some locale)
      × (IsDirectory to_lower to_upper hint name
          ⊎ (((own : Bytes)
                → IsDirectory to_lower to_upper hint own
                → Dict.lookup own l.data' ≡ none)
              × IsMatched to_lower to_upper parse_accept_language match_base l hint name))

  abbrev pub StandsForNone : LocaleMap Translator → Bytes → Type 0
  StandsForNone l hint = (found : Translator × Bytes) → StandsFor l hint found → ⊥

  try : LocaleMap Translator → Bytes → Option (Translator × Bytes)
  try l hint = try_hint to_lower to_upper parse_accept_language match_base l hint

  found_as-eq-some :
      (name : Bytes) (o : Option Translator) (found : Translator × Bytes)
      → found_as name o ≡ some found
      → (o ≡ some found.0) × (name ≡ found.1)
  found_as-eq-some name none found h = absurd (ground (arith, h))
  found_as-eq-some name (some locale) found h =
      let e : (locale, name) ≡ found = ground (arith, h) in (ap (λ p. some p.0) e, ap (λ p. p.1) e)

  found_canonical-eq-some :
      (l : LocaleMap Translator) (r : Result Error Bytes) (found : Translator × Bytes)
      → found_canonical l r ≡ some found
      → (r ≡ ok found.1) × (Dict.lookup found.1 l.data' ≡ some found.0)
  found_canonical-eq-some l (err e) found h = absurd (ground (arith, h))
  found_canonical-eq-some l panic found h = absurd (ground (arith, h))
  found_canonical-eq-some l (ok canonical) found h =
      let (there, name) = found_as-eq-some canonical (Dict.lookup canonical l.data') found h in
      (ap ok name, subst (λ n. Dict.lookup n l.data' ≡ some found.0) name there)

  or_canonical-StandsFor :
      (l : LocaleMap Translator) (hint : Bytes) (o : Option Translator) (found : Translator × Bytes)
      → hint ≢ []
      → Dict.lookup (format_lang_region to_lower to_upper hint) l.data' ≡ o
      → or_canonical to_lower to_upper parse_accept_language match_base l hint
          (found_as (format_lang_region to_lower to_upper hint) o)
        ≡ some found
      → StandsFor l hint found
  or_canonical-StandsFor l hint none found full missing h =
      let (canonical, there) = found_canonical-eq-some l _ found h in
      (
        full,
        there,
        inr (
          (λ own named.
              subst (λ n. Dict.lookup n l.data' ≡ none)
                (sym (IsDirectory-eq to_lower to_upper hint own named)) missing),
          canonicalize-IsMatched to_lower to_upper parse_accept_language match_base l hint found.1
              canonical,
        ),
      )
  or_canonical-StandsFor l hint (some locale) found full there h =
      let (same, name) =
        found_as-eq-some (format_lang_region to_lower to_upper hint) (some locale) found h in
      (
        full,
        subst (λ n. Dict.lookup n l.data' ≡ some found.0) name (there ∙ same),
        inl (
            subst (IsDirectory to_lower to_upper hint) name
              (format-IsDirectory to_lower to_upper hint)),
      )

  try-StandsFor :
      (l : LocaleMap Translator) (hint : Bytes) (found : Translator × Bytes)
      → try l hint ≡ some found
      → StandsFor l hint found
  unfolding try try_hint
  try-StandsFor l hint found h = go (hint == []) refl h
    where
      go :
          (b : Bool)
          → (hint == []) ≡ b
          → (if b
              then none
              else or_canonical to_lower to_upper parse_accept_language match_base l hint (
                  found_as
                    (format_lang_region to_lower to_upper hint)
                    (Dict.lookup (format_lang_region to_lower to_upper hint) l.data')))
            ≡ some found
          → StandsFor l hint found
      go true empty k = absurd (ground (arith, k))
      go false full k =
          or_canonical-StandsFor l hint _ found (ground (arith, full, bytes_eq.equals_iff hint []))
            refl k

  StandsFor-try :
      (l : LocaleMap Translator) (hint : Bytes) (found : Translator × Bytes)
      → StandsFor l hint found
      → try l hint ≡ some found
  unfolding try try_hint
  StandsFor-try l hint (locale, name) (full, there, inl own) =
      let same = IsDirectory-eq to_lower to_upper hint name own in
      let not_empty : (hint == []) ≡ false = ground (arith, full, bytes_eq.equals_iff hint []) in
      let named : Dict.lookup (format_lang_region to_lower to_upper hint) l.data' ≡ some locale =
        subst (λ n. Dict.lookup n l.data' ≡ some locale) same there in
      (rw (not_empty, named) (ap (λ n. some (locale, n)) (sym same)))
  StandsFor-try l hint (locale, name) (full, there, inr (unloaded, is_matched)) =
      let missing = unloaded _ (format-IsDirectory to_lower to_upper hint) in
      let canonical =
        IsMatched-canonicalize to_lower to_upper parse_accept_language match_base l hint name
          is_matched in
      let not_empty : (hint == []) ≡ false = ground (arith, full, bytes_eq.equals_iff hint []) in
      (rw (not_empty, missing, canonical, there) refl)

  try-StandsForNone :
      (l : LocaleMap Translator) (hint : Bytes) → try l hint ≡ none → StandsForNone l hint
  try-StandsForNone l hint h found stands =
      let e : ◌≡◌ {A = Option (Translator × Bytes)} none (some found) =
        sym h ∙ StandsFor-try l hint found stands in
      absurd (ground (arith, e))

  -- The first hint that stands for a loaded locale, with that locale
  abbrev pub FirstOf : LocaleMap Translator → List Bytes → Translator × Bytes → Type 0
  FirstOf l hints found =
      (before : List Bytes) × (hint : Bytes) × (after : List Bytes) × (hints
        ≡ before ++ hint ∷ after)
      × All (StandsForNone l) before
      × StandsFor l hint found

  FirstOf-cons :
      (l : LocaleMap Translator) (hint : Bytes) (hints : List Bytes) (found : Translator × Bytes)
      → StandsForNone l hint
      → FirstOf l hints found
      → FirstOf l (hint ∷ hints) found
  FirstOf-cons l hint hints found missed (before, h, after, e, others, stands) =
      (hint ∷ before, h, after, ap (◌∷◌ hint) e, (missed, others), stands)

  module _ (parse_po : Bytes → Translator) (new_po : Translator) where
    hints_of : LocaleMap Translator → List Bytes → Translator × Bytes
    hints_of = lookup_hints to_lower to_upper parse_accept_language match_base parse_po new_po

    -- What Lookup answers: the locale of the first hint that stands for one, or else the default name,
    -- with its locale or, if that is not loaded, with an empty one
    abbrev pub IsSelected : LocaleMap Translator → List Bytes → Translator × Bytes → Type 0
    IsSelected l hints (locale, name) =
        FirstOf l hints (locale, name)
        ⊎ (All (StandsForNone l) hints
            × (name ≡ l.default_locale)
            × ((Dict.lookup l.default_locale l.data' ≡ some locale)
                ⊎ ((Dict.lookup l.default_locale l.data' ≡ none) × (locale ≡ new_po))))

    default-IsSelected :
        (l : LocaleMap Translator) (o : Option Translator)
        → Dict.lookup l.default_locale l.data' ≡ o
        → IsSelected l []
            (or_default to_lower to_upper parse_accept_language match_base parse_po new_po l o)
    default-IsSelected l none missing = inr (tt, refl, inr (missing, refl))
    default-IsSelected l (some locale) there = inr (tt, refl, inl there)

    IsSelected-cons :
        (l : LocaleMap Translator) (hint : Bytes) (hints : List Bytes) (found : Translator × Bytes)
        → StandsForNone l hint
        → IsSelected l hints found
        → IsSelected l (hint ∷ hints) found
    IsSelected-cons l hint hints found missed (inl first) =
        inl (FirstOf-cons l hint hints found missed first)
    IsSelected-cons l hint hints found missed (inr (others, name, locale)) =
        inr ((missed, others), name, locale)

    hints_of-IsSelected :
        (l : LocaleMap Translator) (hints : List Bytes) → IsSelected l hints (hints_of l hints)
    unfolding hints_of lookup_hints list_beq try
    hints_of-IsSelected l [] = default-IsSelected l _ refl
    hints_of-IsSelected l (hint ∷ hints) = go (try l hint) refl (hints_of-IsSelected l hints)
      where
        go :
            (o : Option (Translator × Bytes))
            → try l hint ≡ o
            → IsSelected l hints (hints_of l hints)
            → IsSelected l (hint ∷ hints) (elim o [ some found ↦ found | none ↦ hints_of l hints ])
        go none missed rest =
            IsSelected-cons l hint hints (hints_of l hints) (try-StandsForNone l hint missed) rest
        go (some found) hit rest = inl ([], hint, hints, refl, tt, try-StandsFor l hint found hit)

    -- Without reloading, Lookup leaves the map as it is and returns the locale, with its name, of the
    -- first hint that is not empty and stands for a loaded locale. A hint stands for the locale whose
    -- directory it names, a language and a region joined by a single dash as in "pt-br" for "pt_BR"
    -- and anything else as it is; or, if that is not loaded, for the locale whose name is the base
    -- language, without a region, of what the matcher gives for the languages that it lists. If no
    -- hint stands for a locale, Lookup returns the default name, with its locale or, if that is not
    -- loaded, with an empty one. It returns also where the language parser or matcher panics.
    pub lookup-IsSelected :
        (l : LocaleMap Translator) (hints : List Bytes)
        → l.reload ≡ false
        → (found : Translator × Bytes) × (lookup to_lower to_upper parse_accept_language match_base
              parse_po new_po l hints
            ≡ ok (found, l))
          × IsSelected l hints found
    unfolding lookup hints_of
    lookup-IsSelected l hints fixed =
        (hints_of l hints, otherwise l.reload _ _ fixed, hints_of-IsSelected l hints)
