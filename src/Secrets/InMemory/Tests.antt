-- ===== src/Secrets/InMemory/Tests.antt =====
-- The in-memory manager at a concrete history.
use go_bananas.Base.{
  ℕ, ◌≡◌, none, List, [], ◌∷◌, Bytes, bytes_eq, codes, ◌==◌, if◌then◌else◌, arith, refl, list_beq,
}
use go_bananas.Base.Dict
use go_bananas.Base.Dict.{Dict}
use go_bananas.Base.Result.{ok}
use go_bananas.Secrets.InMemory.{
  new_in_memory_from_map, copy_secrets, get_secret_value, create_secret_version,
  destroy_secret_version,
}
use go_bananas.Secrets.InMemory.Versions.{Op, create, destroy, run, Separates, IsFresh, get-create}

-- A path as its last element.
abbrev last_element : Bytes → ℕ → Bytes
last_element parent n = n ∷ []

last_element-Separates : Separates last_element
last_element-Separates p q n k e = ground (arith, e)

abbrev ops : List Op
ops = create (codes "a") (codes "x") ∷ destroy (1 ∷ []) ∷ []

-- A seeded name of two bytes is no reference.
abbrev seed : Dict Bytes Bytes
seed = (codes "db", codes "s") ∷ []

seed-IsFresh : IsFresh last_element (new_in_memory_from_map seed)
unfolding new_in_memory_from_map copy_secrets Dict.insert Dict.lookup list_beq
seed-IsFresh p n lt = ground arith

-- A seeded name that is the next reference is returned, and overwritten.
seed_overwritten :
    (let m = new_in_memory_from_map ((1 ∷ [], codes "s") ∷ []) in
      let (ref, m') = create_secret_version last_element (codes "a") (codes "y") m in
      (get_secret_value ref m ≡ ok (codes "s")) × (get_secret_value ref m' ≡ ok (codes "y")))
unfolding new_in_memory_from_map copy_secrets create_secret_version get_secret_value Dict.insert
    Dict.lookup list_beq
seed_overwritten = (refl, refl)

get-create_example :
    (let m = run last_element ops (new_in_memory_from_map seed) in
      let (ref, m') = create_secret_version last_element (codes "a") (codes "y") m in
      (Dict.lookup ref m.secrets ≡ none)
      × (get_secret_value (2 ∷ []) m'
          ≡ (if ref == 2 ∷ [] then ok (codes "y") else get_secret_value (2 ∷ []) m))
      × (get_secret_value (2 ∷ []) (destroy_secret_version ref m') ≡ get_secret_value (2 ∷ []) m))
get-create_example =
    get-create last_element last_element-Separates seed seed-IsFresh ops (codes "a") (codes "y")
      (2 ∷ [])
