-- ===== src/Secrets/Registry.antt =====
-- secrets/secrets.go: the registry of secret managers. Registering a name twice panics.
use go_bananas.Base.{
  ℕ, ◌≡◌, refl, Option, none, some, List, [], ◌∷◌, Bytes, bytes_eq, arith, ◌==◌, if◌then◌else◌,
  Option-cases, inl, inr, ◌⊎◌,
}
use go_bananas.Base.Dict
use go_bananas.Base.Dict.{Dict, lookup-insert}
use go_bananas.Base.Result.{Result, ok, err, panic}
use go_bananas.Flash.{sort}

-- An unknown manager, or the error of a constructor
pub data Error : Type 0 where
  unknown_manager : Bytes → Error
  construction : ℕ → Error

-- The functions that make managers, each applied to its configuration.
abbrev pub Registry : Type 0 → Type 0
Registry M = Dict Bytes (Result Error M)

module _ {M : Type 0} where
  abbrev pub registered :
      Bytes → Result Error M → Option (Result Error M) → Registry M → Result Error (Registry M)
  registered name fn none m = ok (Dict.insert name fn m)
  registered name fn (some f) m = panic

  -- RegisterManager
  unfoldable pub register_manager : Bytes → Result Error M → Registry M → Result Error (Registry M)
  register_manager name fn m = registered name fn (Dict.lookup name m) m

  abbrev pub names : Registry M → List Bytes
  names [] = []
  names ((k, fn) ∷ m) = k ∷ names m

  -- RegisteredManagers
  unfoldable pub registered_managers : Registry M → List Bytes
  registered_managers m = sort (λ s. s) (names m)

  abbrev pub construct : Bytes → Option (Result Error M) → Result Error M
  construct name none = err (unknown_manager name)
  construct name (some r) = r

  -- SecretManagerFor, by the type of the configuration
  unfoldable pub secret_manager_for : Bytes → Registry M → Result Error M
  secret_manager_for name m = construct name (Dict.lookup name m)

  -- Registering a name panics exactly if the name is registered. Otherwise SecretManagerFor then
  -- gives the new manager for the name, and for every other name what it gave before.
  pub manager_for-register :
      (name j : Bytes) (fn : Result Error M) (m : Registry M)
      → (((f : Result Error M) × (Dict.lookup name m ≡ some f)
          × (register_manager name fn m ≡ panic)))
        ⊎ ((Dict.lookup name m ≡ none)
            × ((m' : Registry M) × (register_manager name fn m ≡ ok m')
                × (secret_manager_for j m' ≡ (if name == j then fn else secret_manager_for j m))))
  unfolding register_manager secret_manager_for
  manager_for-register name j fn m = elim (Option-cases (Dict.lookup name m)) [
    | inl free ↦
        inr
          (free, (Dict.insert name fn m, (rw free refl), ground (arith, lookup-insert name j fn m)))
    | inr taken ↦ let (f, there) = taken in inl (f, there, (rw there refl))
  ]
