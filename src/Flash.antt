-- ===== src/Flash.antt =====
-- flash/flash.go: one-shot messages on a session's values map. A message is the text that
-- fmt.Sprintf has made; strings.ToLower is the parameter `lower`.
pub mod Sets
pub mod Valid
pub mod Messages
pub mod Clone
mod Tests
use go_bananas.Base.{
  ℕ, ◌+◌, Bool, true, false, ◌||◌, Option, none, some, List, [], ◌∷◌, Bytes, bytes_eq, ◌==◌, nat_eq,
  codes, if◌then◌else◌, eqb, ltb,
}
use go_bananas.Base.Dict
use go_bananas.Base.Dict.{Dict}
use go_bananas.Base.Result.{Result, ok, panic}
use go_bananas.Values.{Key, flash_key, Value, set_ref, Values, key_eq}

pub data Kind : Type 0 where
  alert error warning : Kind

unfoldable pub kind_name : Kind → Bytes
kind_name alert = codes "_alert"
kind_name error = codes "_error"
kind_name warning = codes "_warning"

abbrev pub kind_key : Kind → Key
kind_key k = flash_key (kind_name k)

-- The map behind a Flash, and the heap of the sets that values refer to.
pub record Store : Type 0 where
  pub values : Values
  pub sets : Dict ℕ (List Bytes)
  pub next : ℕ

abbrev pub Error : Type 0
Error = Unit

-- _, ok := set[m]
unfoldable pub contains : Bytes → List Bytes → Bool
contains m [] = false
contains m (x ∷ xs) = x == m || contains m xs

-- set[m] = struct{}{}
unfoldable pub set_insert : Bytes → List Bytes → List Bytes
set_insert m xs = if contains m xs then xs else m ∷ xs

unfoldable pub members : Store → ℕ → List Bytes
members s a = elim (Dict.lookup a s.sets) [ none ↦ [] | some xs ↦ xs ]

-- f.values[key] = make(map[string]struct{})
unfoldable pub make_set : Kind → Store → Store
make_set k s = record {
  values = Dict.insert (kind_key k) (set_ref s.next) s.values;
  sets = Dict.insert s.next [] s.sets;
  next = s.next + 1;
}

unfoldable pub ensure_set : Kind → Option Value → Store → Store
unfolding make_set
ensure_set k none s = make_set k s
ensure_set k (some v) s = s

-- f.values[key].(map[string]struct{})[m] = struct{}{}; the type assertion can panic.
unfoldable pub put_message : Option Value → Bytes → Store → Result Error Store
put_message (some (set_ref a)) m s =
    ok (record s { sets = Dict.insert a (set_insert m (members s a)) s.sets })
put_message _ m s = panic

-- add
unfoldable pub add : Kind → Bytes → Store → Result Error Store
unfolding ensure_set put_message
add k m s =
    let s' = ensure_set k (Dict.lookup (kind_key k) s.values) s in
    put_message (Dict.lookup (kind_key k) s'.values) m s'

-- a < b on strings, byte by byte
unfoldable pub bytes_ltb : Bytes → Bytes → Bool
bytes_ltb a [] = false
bytes_ltb [] (y ∷ b) = true
bytes_ltb (x ∷ a) (y ∷ b) = if eqb x y then bytes_ltb a b else ltb x y

module _ (lower : Bytes → Bytes) where
  abbrev pub less : Bytes → Bytes → Bool
  less a b = bytes_ltb (lower a) (lower b)

  -- sort.Slice by `less`, as an insertion sort; sort.Slice promises the order up to ties.
  unfoldable pub sort_insert : Bytes → List Bytes → List Bytes
  sort_insert x [] = x ∷ []
  sort_insert x (y ∷ ys) = if less y x then y ∷ sort_insert x ys else x ∷ y ∷ ys

  unfoldable pub sort : List Bytes → List Bytes
  unfolding sort_insert
  sort [] = []
  sort (x ∷ xs) = sort_insert x (sort xs)

  unfoldable pub take_messages : Kind → Option Value → Store → Result Error (List Bytes × Store)
  take_messages k none s = ok ([], s)
  take_messages k (some (set_ref a)) s =
      ok (sort (members s a), record s { values = Dict.delete (kind_key k) s.values })
  take_messages k (some v) s = panic

  -- get; the nil slice is the empty list.
  unfoldable pub get : Kind → Store → Result Error (List Bytes × Store)
  unfolding take_messages
  get k s = take_messages k (Dict.lookup (kind_key k) s.values) s

-- Clear
unfoldable pub clear : Store → Store
clear s = record s {
  values =
      Dict.delete (kind_key warning)
        (Dict.delete (kind_key error) (Dict.delete (kind_key alert) s.values));
}

-- Clone: maps.Copy of the values, and so of the references, into a target map
unfoldable pub clone : Values → Values → Values
clone target [] = target
clone target ((k, v) ∷ vs) = Dict.insert k v (clone target vs)
