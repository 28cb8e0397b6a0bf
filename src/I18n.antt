-- ===== src/I18n.antt =====
-- i18n/i18n.go: translations by locale. Strings of other scripts in lower and upper case, the
-- parser of .po files and the two calls of package language, which may panic, are parameters.
pub mod Directories
pub mod Matches
mod Tests
use go_bananas.Base.{
  ℕ, Bool, true, false, Option, none, some, List, [], ◌∷◌, ◌++◌, Bytes, bytes_eq, codes, split,
  join, ◌==◌, ◌⊎◌, inl, inr, if◌then◌else◌,
}
use go_bananas.Base.Dict
use go_bananas.Base.Dict.{Dict}
use go_bananas.Base.Result.{Result, ok, err, panic, ◌>>=◌}

-- What fs.ReadDir finds, with what reading the directory's default.po gives
pub data Entry : Type 0 where
  plain_file : Bytes → Entry
  directory : Bytes → ℕ ⊎ Bytes → Entry

pub data Error : Type 0 where
  not_listed : ℕ → Error
  not_read : Bytes → ℕ → Error
  no_locales : Error
  unknown_language : Bytes → Error
  not_accepted : ℕ → Error
  malformed_language : Bytes → Error

-- LocaleMap; the names are those that the matcher is made of.
pub record LocaleMap (Translator : Type 0) : Type 0 where
  pub fsys : ℕ ⊎ List Entry
  pub data' : Dict Bytes Translator
  pub names : List Bytes
  pub default_locale : Bytes
  pub reload : Bool

abbrev pub listed : ℕ ⊎ List Entry → Result Error (List Entry)
listed (inl e) = err (not_listed e)
listed (inr entries) = ok entries

abbrev pub two_parts : (to_lower to_upper : Bytes → Bytes) → Bytes → List Bytes → Bytes
two_parts to_lower to_upper s [] = s
two_parts to_lower to_upper s (lang ∷ []) = s
two_parts to_lower to_upper s (lang ∷ region ∷ []) = join 95 (to_lower lang ∷ to_upper region ∷ [])
two_parts to_lower to_upper s (lang ∷ region ∷ more ∷ parts) = s

-- formatLangRegion
unfoldable pub format_lang_region : (to_lower to_upper : Bytes → Bytes) → Bytes → Bytes
unfolding split join
format_lang_region to_lower to_upper s = two_parts to_lower to_upper s (split 45 s)

abbrev pub matched : Bytes → Result ℕ (Option Bytes) → Result Error Bytes
matched id (ok (some base)) = ok base
matched id (ok none) = err (malformed_language id)
matched id (err e) = err (not_accepted e)
matched id panic = err (unknown_language id)

abbrev pub found_as {ℓ} :
    {Translator : Type ℓ} → Bytes → Option Translator → Option (Translator × Bytes)
found_as name none = none
found_as name (some locale) = some (locale, name)

abbrev pub found_canonical :
    {Translator : Type 0} → LocaleMap Translator → Result Error Bytes → Option (Translator × Bytes)
found_canonical l (ok canonical) = found_as canonical (Dict.lookup canonical l.data')
found_canonical l (err e) = none
found_canonical l panic = none

module _ {Translator : Type 0} (parse_po : Bytes → Translator) where
  abbrev pub read_locale :
      Bytes
      → ℕ ⊎ Bytes
      → Dict Bytes Translator × List Bytes
      → Result Error (Dict Bytes Translator × List Bytes)
  read_locale name (inl e) found = err (not_read name e)
  read_locale name (inr b) (data', names) =
      ok (Dict.insert name (parse_po b) data', names ++ name ∷ [])

  -- The loop of load
  unfoldable pub load_entries :
      Dict Bytes Translator × List Bytes
      → List Entry
      → Result Error (Dict Bytes Translator × List Bytes)
  load_entries found [] = ok found
  load_entries found (plain_file name ∷ entries) = load_entries found entries
  load_entries found (directory name po ∷ entries) =
      read_locale name po found >>= λ more. load_entries more entries

  abbrev pub installed :
      LocaleMap Translator
      → Dict Bytes Translator × List Bytes
      → Result Error (LocaleMap Translator)
  installed l ([], names) = err no_locales
  installed l (d ∷ data', names) = ok (record l { data' = d ∷ data'; names = names })

  -- LocaleMap.load
  unfoldable pub load : LocaleMap Translator → Result Error (LocaleMap Translator)
  unfolding load_entries
  load l = listed l.fsys >>= load_entries ([], []) >>= installed l

  -- Load, with its options
  unfoldable pub load_new : ℕ ⊎ List Entry → Bytes → Bool → Result Error (LocaleMap Translator)
  unfolding load
  load_new fsys default_locale reload = load (record {
    fsys = fsys;
    data' = [];
    names = [];
    default_locale = default_locale;
    reload = reload;
  })

module _ {Translator Tag : Type 0} (to_lower to_upper : Bytes → Bytes)
    (parse_accept_language : Bytes → Result ℕ (List Tag))
    (match_base : List Bytes → List Tag → Result ℕ (Option Bytes)) where
  -- LocaleMap.canonicalize, which recovers from a panic of either call
  unfoldable pub canonicalize : LocaleMap Translator → Bytes → Result Error Bytes
  canonicalize l id = matched id (parse_accept_language id >>= match_base l.names)

  abbrev pub or_canonical :
      LocaleMap Translator → Bytes → Option (Translator × Bytes) → Option (Translator × Bytes)
  or_canonical l hint (some found) = some found
  or_canonical l hint none = found_canonical l (canonicalize l hint)

  -- One hint of Lookup
  unfoldable pub try_hint : LocaleMap Translator → Bytes → Option (Translator × Bytes)
  unfolding format_lang_region canonicalize
  try_hint l hint =
      if hint == []
      then none
      else or_canonical l hint (
          found_as (format_lang_region to_lower to_upper hint)
            (Dict.lookup (format_lang_region to_lower to_upper hint) l.data'))

  module _ (parse_po : Bytes → Translator) (new_po : Translator) where
    abbrev pub or_default : LocaleMap Translator → Option Translator → Translator × Bytes
    or_default l none = (new_po, l.default_locale)
    or_default l (some locale) = (locale, l.default_locale)

    -- The loop of Lookup over the hints
    unfoldable pub lookup_hints : LocaleMap Translator → List Bytes → Translator × Bytes
    unfolding try_hint
    lookup_hints l [] = or_default l (Dict.lookup l.default_locale l.data')
    lookup_hints l (hint ∷ hints) = elim (try_hint l hint) [
      | some found ↦ found
      | none ↦ lookup_hints l hints
    ]

    abbrev pub after_reload :
        List Bytes
        → Result Error (LocaleMap Translator)
        → Result Error ((Translator × Bytes) × LocaleMap Translator)
    after_reload hints (ok l) = ok (lookup_hints l hints, l)
    after_reload hints (err e) = panic
    after_reload hints panic = panic

    -- LocaleMap.Lookup, with the map after it
    unfoldable pub lookup :
        LocaleMap Translator
        → List Bytes
        → Result Error ((Translator × Bytes) × LocaleMap Translator)
    unfolding lookup_hints load
    lookup l hints =
        if l.reload then after_reload hints (load parse_po l) else ok (lookup_hints l hints, l)
