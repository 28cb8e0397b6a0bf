-- ===== src/Secrets/InMemory/Versions.antt =====
-- secrets/in_memory.go: the references that CreateSecretVersion returns.
use go_bananas.Base.{
  ℕ, ◌+◌, ◌<◌, ◌≡◌, refl, none, List, [], ◌∷◌, Bytes, bytes_eq, arith, ◌==◌, if◌then◌else◌,
}
use go_bananas.Base.Dict
use go_bananas.Base.Dict.{Dict}
use go_bananas.Base.Dict.{lookup-insert, lookup-delete}
use go_bananas.Base.Result.{ok}
use go_bananas.Secrets.InMemory.{
  InMemory, new_in_memory, new_in_memory_from_map, get_secret_value, create_secret_version,
  destroy_secret_version,
}

-- A sequence of calls that change the manager.
pub data Op : Type 0 where
  create : Bytes → Bytes → Op
  destroy : Bytes → Op

module _ (join_path : Bytes → ℕ → Bytes) where
  unfoldable pub run : List Op → InMemory → InMemory
  unfolding create_secret_version destroy_secret_version
  run [] m = m
  run (create parent content ∷ ops) m = run ops (create_secret_version join_path parent content m).1
  run (destroy k ∷ ops) m = run ops (destroy_secret_version k m)

  -- References with different counters are different: the counter is a path's last element.
  abbrev pub Separates : Type 0
  Separates = (p q : Bytes) (n k : ℕ) → join_path p n ≡ join_path q k → n ≡ k

  -- No reference with a higher counter is in use.
  abbrev pub IsFresh : InMemory → Type 0
  IsFresh m = (p : Bytes) (n : ℕ) → m.counter < n → Dict.lookup (join_path p n) m.secrets ≡ none

  run-IsFresh : Separates → (ops : List Op) (m : InMemory) → IsFresh m → IsFresh (run ops m)
  unfolding run create_secret_version destroy_secret_version
  run-IsFresh apart [] m h = h
  run-IsFresh apart (create parent content ∷ ops) m h = run-IsFresh apart ops _ (λ p n lt. ground (
    arith,
    lookup-insert (join_path parent (m.counter + 1)) (join_path p n) content m.secrets,
    bytes_eq.equals_iff (join_path parent (m.counter + 1)) (join_path p n),
    apart parent p (m.counter + 1) n,
    h p n,
    lt,
  ))
  run-IsFresh apart (destroy k ∷ ops) m h =
      run-IsFresh apart ops _
        (λ p n lt. ground (arith, lookup-delete k (join_path p n) m.secrets, h p n, lt))

  -- NewInMemory starts with no reference in use.
  new_in_memory-IsFresh : IsFresh new_in_memory
  unfolding Dict.lookup
  new_in_memory-IsFresh p n lt = refl

  fresh_after :
      Separates
      → (seed : Dict Bytes Bytes) → IsFresh (new_in_memory_from_map seed)
      → (ops : List Op) (p : Bytes)
      → Dict.lookup
          (join_path p ((run ops (new_in_memory_from_map seed)).counter + 1))
          (run ops (new_in_memory_from_map seed)).secrets
        ≡ none
  fresh_after apart seed fresh ops p =
      run-IsFresh apart ops (new_in_memory_from_map seed) fresh p
        ((run ops (new_in_memory_from_map seed)).counter + 1) (omega arith)

  -- For a manager from NewInMemoryFromMap, none of whose seeded names is the reference of a parent
  -- and a counter, and so for one from NewInMemory: whatever was created and destroyed before, the
  -- reference that CreateSecretVersion returns is not in use; afterwards it has the content, and
  -- every other reference what it had; once it is destroyed, every reference has what it had before
  -- it was created. References with different counters are taken to be different.
  pub get-create :
      Separates
      → (seed : Dict Bytes Bytes) → IsFresh (new_in_memory_from_map seed)
      → (ops : List Op) (parent content k : Bytes)
      → (let m = run ops (new_in_memory_from_map seed) in
          let (ref, m') = create_secret_version join_path parent content m in
          (Dict.lookup ref m.secrets ≡ none)
          × (get_secret_value k m' ≡ (if ref == k then ok content else get_secret_value k m))
          × (get_secret_value k (destroy_secret_version ref m') ≡ get_secret_value k m))
  unfolding create_secret_version get_secret_value destroy_secret_version
  get-create apart seed fresh ops parent content k = (
    fresh_after apart seed fresh ops parent,
    ground (
      arith,
      lookup-insert (join_path parent ((run ops (new_in_memory_from_map seed)).counter + 1)) k
          content (run ops (new_in_memory_from_map seed)).secrets,
    ),
    ground (
      arith,
      bytes_eq.equals_iff (join_path parent ((run ops (new_in_memory_from_map seed)).counter + 1))
          k,
      fresh_after apart seed fresh ops parent,
      lookup-delete (join_path parent ((run ops (new_in_memory_from_map seed)).counter + 1)) k (
          Dict.insert (join_path parent ((run ops (new_in_memory_from_map seed)).counter + 1))
            content (run ops (new_in_memory_from_map seed)).secrets),
      lookup-insert (join_path parent ((run ops (new_in_memory_from_map seed)).counter + 1)) k
          content (run ops (new_in_memory_from_map seed)).secrets,
    ),
  )
