-- ===== src/Secrets/InMemory.antt =====
-- secrets/in_memory.go and secrets/cacher.go: the manager for tests, and the caching one. path.Join
-- of the parent and the decimal counter is a parameter; the counter is below 2^63.
pub mod Versions
mod Tests
use go_bananas.Base.{ℕ, ◌+◌, Option, none, some, List, [], ◌∷◌, Bytes, bytes_eq}
use go_bananas.Base.Dict
use go_bananas.Base.Dict.{Dict}
use go_bananas.Base.Int.{ℤ}
use go_bananas.Base.Result.{Result, ok, err, panic}
use go_bananas.Cache.{Cache, Outcome, write_thru_lookup}

pub record InMemory : Type 0 where
  pub secrets : Dict Bytes Bytes
  pub counter : ℕ

pub data Error : Type 0 where
  does_not_exist : Error

-- NewInMemory
abbrev pub new_in_memory : InMemory
new_in_memory = record { secrets = []; counter = 0 }

-- NewInMemoryFromMap copies the map, whose order of iteration is the list's.
unfoldable pub copy_secrets : Dict Bytes Bytes → Dict Bytes Bytes → Dict Bytes Bytes
copy_secrets n [] = n
copy_secrets n ((k, v) ∷ m) = copy_secrets (Dict.insert k v n) m

unfoldable pub new_in_memory_from_map : Dict Bytes Bytes → InMemory
unfolding copy_secrets
new_in_memory_from_map m = record { secrets = copy_secrets [] m; counter = 0 }

abbrev pub found_or : Option Bytes → Result Error Bytes
found_or none = err does_not_exist
found_or (some v) = ok v

-- InMemory.GetSecretValue
unfoldable pub get_secret_value : Bytes → InMemory → Result Error Bytes
get_secret_value k m = found_or (Dict.lookup k m.secrets)

-- InMemory.CreateSecretVersion: the reference, and the manager
unfoldable pub create_secret_version :
    (Bytes → ℕ → Bytes) → Bytes → Bytes → InMemory → Bytes × InMemory
create_secret_version join_path parent content m = (
  join_path parent (m.counter + 1),
  record {
    secrets = Dict.insert (join_path parent (m.counter + 1)) content m.secrets;
    counter = m.counter + 1;
  },
)

-- InMemory.DestroySecretVersion
unfoldable pub destroy_secret_version : Bytes → InMemory → InMemory
destroy_secret_version k m = record m { secrets = Dict.delete k m.secrets }

-- Cacher.GetSecretValue over a manager `get`, with no other call between its two locks; the read
-- lock is taken at `now`, the write lock at `locked`, and the value is there at `later`.
unfoldable pub cached_value :
    {E : Type 0} → (Bytes → Result E Bytes) → Cache Bytes → Bytes → ℕ → ℕ → ℕ → Outcome E Bytes
unfolding write_thru_lookup
cached_value get c name now locked later = write_thru_lookup c name now locked (get name) later
