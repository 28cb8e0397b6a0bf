-- ===== src/Keys/Registry.antt =====
-- keys/keys.go: the registry of key managers. Registering a name twice panics.
use go_bananas.Base.{
  ℕ, ◌≡◌, ◌∙◌, ◌⊎◌, inl, inr, refl, Bool, true, false, Option, none, some, List, [], ◌∷◌, Bytes,
  bytes_eq, arith, ◌==◌, if◌then◌else◌, Option-cases, ◌||◌,
}
use go_bananas.Base.Dict
use go_bananas.Base.Dict.{Dict, lookup-insert}
use go_bananas.Base.Result.{Result, ok, err, panic}
use go_bananas.Flash.{sort, contains}
use go_bananas.Flash.Sets.{contains-sort, IsSorted, sort-IsSorted}

-- An unknown manager, or the error of a constructor
pub data Error : Type 0 where
  unknown_manager : Bytes → Error
  construction : ℕ → Error

-- The functions that make key managers from a configuration
abbrev pub Managers : Type 0 → Type 0 → Type 0
Managers Config Manager = Dict Bytes (Config → Result Error Manager)

module _ {Config Manager : Type 0} where
  abbrev pub registered :
      Bytes
      → (Config → Result Error Manager)
      → Option (Config → Result Error Manager)
      → Managers Config Manager
      → Result Error (Managers Config Manager)
  registered name fn none managers = ok (Dict.insert name fn managers)
  registered name fn (some f) managers = panic

  -- RegisterManager
  unfoldable pub register_manager :
      Bytes
      → (Config → Result Error Manager)
      → Managers Config Manager
      → Result Error (Managers Config Manager)
  register_manager name fn managers = registered name fn (Dict.lookup name managers) managers

  abbrev pub names : Managers Config Manager → List Bytes
  names [] = []
  names ((k, fn) ∷ managers) = k ∷ names managers

  -- RegisteredManagers
  unfoldable pub registered_managers : Managers Config Manager → List Bytes
  registered_managers managers = sort (λ s. s) (names managers)

  abbrev pub construct :
      Bytes → Config → Option (Config → Result Error Manager) → Result Error Manager
  construct name cfg none = err (unknown_manager name)
  construct name cfg (some fn) = fn cfg

  -- KeyManagerFor of a configuration with its type
  unfoldable pub key_manager_for :
      (Config → Bytes) → Config → Managers Config Manager → Result Error Manager
  key_manager_for type_of cfg managers =
      construct (type_of cfg) cfg (Dict.lookup (type_of cfg) managers)

  abbrev is_registered : Option (Config → Result Error Manager) → Bool
  is_registered none = false
  is_registered (some fn) = true

  contains-names :
      (name : Bytes) (managers : Managers Config Manager)
      → contains name (names managers) ≡ is_registered (Dict.lookup name managers)
  unfolding contains Dict.lookup
  contains-names name [] = refl
  contains-names name ((k, fn) ∷ managers) =
      ground (
        arith,
        contains-names name managers,
        bytes_eq.equals_iff k name,
        bytes_eq.equals_iff name k,
      )

  added :
      (b : Bool) (fn : Config → Result Error Manager) (o : Option (Config → Result Error Manager))
      → is_registered (if b then some fn else o) ≡ (b || is_registered o)
  added true fn o = refl
  added false fn o = refl

  registered_managers-contains :
      (name : Bytes) (managers : Managers Config Manager)
      → contains name (registered_managers managers) ≡ is_registered (Dict.lookup name managers)
  unfolding registered_managers
  registered_managers-contains name managers =
      contains-sort (λ s. s) name (names managers) ∙ contains-names name managers

  -- Registering a name panics exactly if the name is listed already. Otherwise KeyManagerFor then
  -- calls the new function for a configuration of that type, and does for every other what it did
  -- before, and the names listed are sorted and have grown by that one.
  pub register_manager-Extends :
      (name j : Bytes) (fn : Config → Result Error Manager) (managers : Managers Config Manager)
      (type_of : Config → Bytes) (cfg : Config)
      → ((contains name (registered_managers managers) ≡ true)
          × (register_manager name fn managers ≡ panic))
        ⊎ ((contains name (registered_managers managers) ≡ false)
            × ((managers' : Managers Config Manager) × (register_manager name fn managers
                  ≡ ok managers')
                × (key_manager_for type_of cfg managers' ≡ (
                    if name == type_of cfg then fn cfg else key_manager_for type_of cfg managers))
                × (contains j (registered_managers managers')
                    ≡ (name == j || contains j (registered_managers managers)))
                × IsSorted (λ s. s) (registered_managers managers')))
  unfolding register_manager key_manager_for
  register_manager-Extends name j fn managers type_of cfg =
      elim (Option-cases (Dict.lookup name managers)) [
        | inl free ↦ inr (
          (rw (registered_managers-contains name managers, free) refl),
          (
            Dict.insert name fn managers,
            (rw free refl),
            ground (arith, lookup-insert name (type_of cfg) fn managers),
            (rw
                (
                  registered_managers-contains j (Dict.insert name fn managers),
                  registered_managers-contains j managers,
                  lookup-insert name j fn managers,
                )
                (added (name == j) fn (Dict.lookup j managers))),
            unfold registered_managers in
                sort-IsSorted (λ s. s) (names (Dict.insert name fn managers)),
          ),
        )
        | inr taken ↦
            let (f, there) = taken in
            inl ((rw (registered_managers-contains name managers, there) refl), (rw there refl))
      ]
