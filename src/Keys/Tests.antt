-- ===== src/Keys/Tests.antt =====
-- Registering key managers.
use go_bananas.Base.{
  ◌≡◌, ◌⊎◌, true, false, [], Bytes, bytes_eq, codes, ◌==◌, ◌||◌, if◌then◌else◌, ℕ,
}
use go_bananas.Base.Result.{Result, ok, panic}
use go_bananas.Flash.{contains}
use go_bananas.Flash.Sets.{IsSorted}
use go_bananas.Keys.Registry.{
  Error, Managers, register_manager, registered_managers, key_manager_for, register_manager-Extends,
}

abbrev manager_two : Bytes → Result Error ℕ
manager_two cfg = ok 2

abbrev type_of : Bytes → Bytes
type_of cfg = cfg

abbrev no_managers : Managers Bytes ℕ
no_managers = []

register_manager-Extends_example :
    ((contains (codes "VAULT") (registered_managers no_managers) ≡ true)
      × (register_manager (codes "VAULT") manager_two no_managers ≡ panic))
    ⊎ ((contains (codes "VAULT") (registered_managers no_managers) ≡ false)
        × ((managers' : Managers Bytes ℕ) × (register_manager
                (codes "VAULT")
                manager_two
                no_managers
              ≡ ok managers')
            × (key_manager_for type_of (codes "VAULT") managers' ≡ (
                if codes "VAULT" == codes "VAULT"
                then ok 2
                else key_manager_for type_of (codes "VAULT") no_managers))
            × (contains (codes "AWS") (registered_managers managers') ≡ (
                codes "VAULT" == codes "AWS"
                || contains (codes "AWS") (registered_managers no_managers)))
            × IsSorted (λ s. s) (registered_managers managers')))
register_manager-Extends_example =
    register_manager-Extends (codes "VAULT") (codes "AWS") manager_two no_managers type_of
      (codes "VAULT")
