-- ===== src/I18n/Tests.antt =====
-- Locales "en" and "pt_BR", and a matcher that knows the base language "pt" and panics on "x".
use go_bananas.Base.{
  ℕ, ◌≡◌, ◌⊎◌, refl, false, Option, some, List, [], ◌∷◌, Bytes, bytes_eq, codes, list_beq, split,
  join, ◌==◌, inr, if◌then◌else◌,
}
use go_bananas.Base.Dict
use go_bananas.Base.Result.{Result, ok, panic}
use go_bananas.I18n.{
  LocaleMap, Entry, plain_file, directory, load_entries, load, load_new, format_lang_region,
  canonicalize, try_hint, lookup_hints, lookup,
}
use go_bananas.I18n.Matches.{IsSelected, lookup-IsSelected}

program : Unit {0}
unfolding load_entries load load_new format_lang_region canonicalize try_hint lookup_hints lookup
    Dict.lookup Dict.insert list_beq split join
program = tt

abbrev same : Bytes → Bytes
same s = s

abbrev accept : Bytes → Result ℕ (List Bytes)
accept s = if s == codes "x" then panic else ok (s ∷ [])

abbrev base : List Bytes → List Bytes → Result ℕ (Option Bytes)
base names tags = ok (some (codes "pt"))

abbrev fsys : ℕ ⊎ List Entry
fsys = inr (
    directory (codes "en") (inr (codes "E"))
    ∷ plain_file (codes "README")
    ∷ directory (codes "pt_BR") (inr (codes "P"))
    ∷ [])

abbrev locales : LocaleMap Bytes
locales = record {
  fsys = fsys;
  data' = (codes "en", codes "E") ∷ (codes "pt_BR", codes "P") ∷ [];
  names = codes "en" ∷ codes "pt_BR" ∷ [];
  default_locale = codes "en";
  reload = false;
}

load_test : load_new same fsys (codes "en") false ≡ ok locales
unfolding program
load_test = refl

-- A list of accepted languages with "pt-BR" does not find the locale "pt_BR": the base language of
-- what the matcher gives is looked up.
lookup_tests :
    (lookup same same accept base same [] locales (codes "pt-BR" ∷ [])
      ≡ ok ((codes "P", codes "pt_BR"), locales))
    × (lookup same same accept base same [] locales ([] ∷ codes "pt-BR,pt;q=0.9" ∷ [])
        ≡ ok ((codes "E", codes "en"), locales))
    × (lookup same same accept base same [] locales (codes "x" ∷ [])
        ≡ ok ((codes "E", codes "en"), locales))
unfolding program
lookup_tests = (refl, refl, refl)

lookup-IsSelected_example :
    (found : Bytes × Bytes) × (lookup same same accept base same [] locales
        (codes "x" ∷ codes "pt-BR" ∷ [])
      ≡ ok (found, locales))
    × IsSelected same same accept base same [] locales (codes "x" ∷ codes "pt-BR" ∷ []) found
lookup-IsSelected_example =
    lookup-IsSelected same same accept base same [] locales (codes "x" ∷ codes "pt-BR" ∷ []) refl
