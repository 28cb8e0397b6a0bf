-- ===== src/Secrets/JsonExpander.antt =====
-- secrets/json_expander.go: a name with periods selects a string field of a JSON-valued secret. The
-- manager that is wrapped and json.Unmarshal into a map[string]any are parameters.
pub mod Selection
mod Tests
use go_bananas.Base.{
  ℕ, Bool, Option, none, some, List, [], ◌∷◌, ◌++◌, Bytes, bytes_eq, split, join, ◌==◌, ◌⊎◌, inl,
  inr, if◌then◌else◌,
}
use go_bananas.Base.Result.{Result, ok, err, panic, ◌>>=◌}

-- What json.Unmarshal stores in an any, with the members of a map as a list.
mutual
  pub data Json : Type 0 where
    null : Json
    boolean : Bool → Json
    number : Bytes → Json
    string : Bytes → Json
    array : Items → Json
    object : Members → Json

  pub data Items : Type 0 where
    no_items : Items
    item : Json → Items → Items

  pub data Members : Type 0 where
    no_members : Members
    member : Bytes → Json → Members → Members

pub data Error : Type 0 where
  manager_failed : ℕ → Error
  malformed : ℕ → Error
  not_object : Bytes → Error
  missing_key : Bytes → Error
  not_string : Json → Error

-- m[key]
unfoldable pub field : Bytes → Members → Option Json
field key no_members = none
field key (member k v ms) = if k == key then some v else field key ms

abbrev pub found : Bytes → Option Json → Result Error Json
found key none = err (missing_key key)
found key (some v) = ok v

-- One round of the loop, with the elements of the path before it
abbrev pub enter : List Bytes → Json → Bytes → Result Error Json
enter seen (object ms) key = found key (field key ms)
enter seen null key = err (not_object (join 46 seen))
enter seen (boolean b) key = err (not_object (join 46 seen))
enter seen (number n) key = err (not_object (join 46 seen))
enter seen (string s) key = err (not_object (join 46 seen))
enter seen (array js) key = err (not_object (join 46 seen))

-- The loop over the dotted path
unfoldable pub walk_path : List Bytes → Json → List Bytes → Result Error Json
unfolding field join
walk_path seen cur [] = ok cur
walk_path seen cur (key ∷ path) =
    enter seen cur key >>= λ next. walk_path (seen ++ key ∷ []) next path

abbrev pub as_string : Json → Result Error Bytes
as_string (string s) = ok s
as_string null = err (not_string null)
as_string (boolean b) = err (not_string (boolean b))
as_string (number n) = err (not_string (number n))
as_string (array js) = err (not_string (array js))
as_string (object ms) = err (not_string (object ms))

abbrev pub from {ℓ} : {A : Type ℓ} → (ℕ → Error) → ℕ ⊎ A → Result Error A
from wrap (inl e) = err (wrap e)
from wrap (inr a) = ok a

module _ (manager : Bytes → ℕ ⊎ Bytes) (unmarshal : Bytes → ℕ ⊎ Members) where
  abbrev pub expand : Bytes → List Bytes → Result Error Bytes
  expand name [] = panic
  expand name (secret ∷ []) = from manager_failed (manager name)
  expand name (secret ∷ key ∷ path) = from manager_failed (manager secret) >>= λ text.
      from malformed (unmarshal text) >>= λ root.
      walk_path [] (object root) (key ∷ path) >>= as_string

  -- JSONExpander.GetSecretValue
  unfoldable pub expand_secret : Bytes → Result Error Bytes
  unfolding split
  expand_secret name = expand name (split 46 name)
