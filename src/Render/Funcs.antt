-- ===== src/Render/Funcs.antt =====
-- render/funcs.go: functions for templates. What package reflect finds of an argument is its data
-- here; the formatting of numbers, of times and of fmt.Sprintf are parameters.
use go_bananas.Base.{
  ℕ, Bool, true, false, ◌||◌, Option, none, some, List, [], ◌∷◌, ◌++◌, Bytes, bytes_eq, codes, ◌==◌,
  eqb, ltb, length, if◌then◌else◌,
}
use go_bananas.Base.Dict
use go_bananas.Base.Dict.{Dict}
use go_bananas.Base.Int.{ℤ}
use go_bananas.Base.Result.{Result, ok, err, panic}

-- An element of a slice: a fmt.Stringer, a string, an integer of any width, or another value
pub data Item : Type 0 where
  stringer : Bytes → Item
  text : Bytes → Item
  signed : ℤ → Item
  unsigned : ℕ → Item
  other_item : Item

-- An argument. A nil pointer tells if its type leads to a slice or an array, a map its size.
pub data Arg : Type 0 where
  nil : Arg
  boolean : Bool → Arg
  string : Bytes → Arg
  items : List Item → Arg
  mapping : ℕ → Arg
  pointer : Arg → Arg
  nil_pointer : Bool → Arg
  other : Arg

pub data Error : Type 0 where
  not_slice : Error
  missing_translator : Error
  unknown_key : Bytes → Error
  unsupported_type : Error

module _ (format_int : ℤ → Bytes) (format_uint : ℕ → Bytes) where
  abbrev pub item_strings : List Item → List Bytes
  item_strings [] = []
  item_strings (stringer s ∷ is) = s ∷ item_strings is
  item_strings (text s ∷ is) = s ∷ item_strings is
  item_strings (signed z ∷ is) = format_int z ∷ item_strings is
  item_strings (unsigned n ∷ is) = format_uint n ∷ item_strings is
  item_strings (other_item ∷ is) = item_strings is

  -- toStringSlice: the type of nil has no kind, and the value of a nil pointer no length.
  unfoldable pub to_string_slice : Arg → Result Error (List Bytes)
  to_string_slice nil = panic
  to_string_slice (boolean b) = err not_slice
  to_string_slice (string s) = err not_slice
  to_string_slice (items is) = ok (item_strings is)
  to_string_slice (mapping n) = err not_slice
  to_string_slice (pointer a) = to_string_slice a
  to_string_slice (nil_pointer true) = panic
  to_string_slice (nil_pointer false) = err not_slice
  to_string_slice other = err not_slice

  -- strings.Join with a separator of any length
  abbrev pub join_with : Bytes → List Bytes → Bytes
  join_with sep [] = []
  join_with sep (w ∷ []) = w
  join_with sep (w ∷ v ∷ ws) = w ++ sep ++ join_with sep (v ∷ ws)

  abbrev pub or_empty : (List Bytes → Bytes) → Result Error (List Bytes) → Result Error Bytes
  or_empty f (ok l) = ok (f l)
  or_empty f (err e) = ok []
  or_empty f panic = panic

  -- joinStrings
  unfoldable pub join_strings : Arg → Bytes → Result Error Bytes
  unfolding to_string_slice
  join_strings a sep = or_empty (join_with sep) (to_string_slice a)

  abbrev pub last_apart : Bytes → List Bytes → List Bytes × Bytes
  last_apart w [] = ([], w)
  last_apart w (v ∷ ws) = (w ∷ (last_apart v ws).0, (last_apart v ws).1)

  abbrev pub sentence : Bytes → List Bytes → Bytes
  sentence joiner [] = []
  sentence joiner (w ∷ []) = w
  sentence joiner (w ∷ v ∷ []) = w ++ codes " " ++ joiner ++ codes " " ++ v
  sentence joiner (w ∷ v ∷ u ∷ ws) =
      let (parts, last) = last_apart w (v ∷ u ∷ ws) in
      join_with (codes ", ") parts ++ codes " " ++ joiner ++ codes ", " ++ last

  -- toSentence
  unfoldable pub to_sentence : Arg → Bytes → Result Error Bytes
  unfolding to_string_slice
  to_sentence a joiner = or_empty (sentence joiner) (to_string_slice a)

-- valueIfTruthy
unfoldable pub value_if_truthy : Bytes → Arg → Bytes
value_if_truthy s nil = []
value_if_truthy s (boolean b) = if b then s else []
value_if_truthy s (string t) = if ltb 0 (length t) then s else []
value_if_truthy s (items is) = if ltb 0 (length is) then s else []
value_if_truthy s (mapping n) = if ltb 0 n then s else []
value_if_truthy s (pointer a) = []
value_if_truthy s (nil_pointer b) = []
value_if_truthy s other = []

abbrev pub item_count : Arg → Option ℕ
item_count (items is) = some (length is)
item_count nil = none
item_count (boolean b) = none
item_count (string s) = none
item_count (mapping n) = none
item_count (pointer a) = none
item_count (nil_pointer b) = none
item_count other = none

-- hasOne
unfoldable pub has_one : Arg → Bool
has_one a = elim (item_count a) [ none ↦ false | some n ↦ eqb n 1 ]

-- hasMany
unfoldable pub has_many : Arg → Bool
has_many a = elim (item_count a) [ none ↦ false | some n ↦ ltb 1 n ]

-- A translator, applied to the variables of the call
abbrev pub Translator : Type 0
Translator = Bytes → Bytes

abbrev pub is_unknown : Bytes → Bytes → Bool
is_unknown key v = v == [] || v == key

-- translate
unfoldable pub translate : Option Translator → Bytes → Result Error Bytes
translate none key = err missing_translator
translate (some get) key = if is_unknown key (get key) then err (unknown_key key) else ok (get key)

-- translateWithFallback, with the fallback as it is formatted
unfoldable pub translate_with_fallback : Option Translator → Bytes → Bytes → Bytes
translate_with_fallback none fallback key = fallback
translate_with_fallback (some get) fallback key =
    if is_unknown key (get key) then fallback else get key

pub data TimeArg : Type 0 where
  time : ℕ → TimeArg
  time_pointer : Option ℕ → TimeArg
  no_time : TimeArg

-- humanizeTime
unfoldable pub humanize_time : (ℕ → Bytes) → TimeArg → Result Error Bytes
humanize_time humanize (time t) = ok (humanize t)
humanize_time humanize (time_pointer none) = ok (codes "never")
humanize_time humanize (time_pointer (some t)) = ok (humanize t)
humanize_time humanize no_time = err unsupported_type

-- The caller's functions over the defaults, and an option's over those of the options before it
unfoldable pub merge_funcs {ℓ} : {F : Type ℓ} → Dict Bytes F → Dict Bytes F → Dict Bytes F
unfolding Dict.insert
merge_funcs m [] = m
merge_funcs m ((k, v) ∷ extra) = merge_funcs (Dict.insert k v m) extra
