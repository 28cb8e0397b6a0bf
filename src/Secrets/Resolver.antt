-- ===== src/Secrets/Resolver.antt =====
-- secrets/resolver.go: the mutator of configuration values. The secret manager, the hash, the path
-- join and the errors of the file system are parameters; an error is a number.
pub mod Outcomes
use go_bananas.Base.{
  ℕ, ◌%◌, Bool, true, false, Option, none, some, List, [], ◌∷◌, ◌++◌, Bytes, bytes_eq, codes, ◌==◌,
  eqb, if◌then◌else◌, cut_prefix, cut_suffix, split, join, ◌⊎◌, inl, inr,
}
use go_bananas.Base.Dict
use go_bananas.Base.Dict.{Dict}

-- What os.Stat says of the directory: that it is missing, another error, or its permissions.
pub data Stat : Type 0 where
  missing : Stat
  failed : ℕ → Stat
  mode : ℕ → Stat

pub record Disk : Type 0 where
  pub dir : Stat
  pub files : Dict Bytes Bytes

pub data Error : Type 0 where
  unresolved : ℕ → Error
  dir_unreadable : ℕ → Error
  dir_not_created : ℕ → Error
  dir_not_private : ℕ → Error
  not_written : ℕ → Error

abbrev pub secret_prefix : Bytes
secret_prefix = codes "secret://"

abbrev pub file_suffix : Bytes
file_suffix = codes "?target=file"

-- What the resolver calls.
pub record System : Type 0 where
  pub get_secret_value : Bytes → ℕ ⊎ Bytes
  pub mkdir_all : Option ℕ
  pub write_file : Bytes → Option ℕ
  pub file_name : Bytes → Bytes
  pub path_join : Bytes → Bytes

abbrev pub Answer : Type 0 → Type 0
Answer A = (Error ⊎ A) × Disk

abbrev pub created : Option ℕ → Disk → Answer (Unit {0})
created none d = (inr tt, record d { dir = mode 448 })
created (some e) d = (inl (dir_not_created e), d)

-- perm&0o077 is the remainder by 64.
abbrev pub ensured : System → Stat → Disk → Answer (Unit {0})
ensured s (failed e) d = (inl (dir_unreadable e), d)
ensured s missing d = created s.mkdir_all d
ensured s (mode perm) d = if eqb (perm % 64) 0 then (inr tt, d) else (inl (dir_not_private perm), d)

-- ensureSecureDir
unfoldable pub ensure_secure_dir : System → Disk → Answer (Unit {0})
ensure_secure_dir s d = ensured s d.dir d

abbrev pub written : Option ℕ → Bytes → Bytes → Disk → Answer Bytes
written none path value d = (inr path, record d { files = Dict.insert path value d.files })
written (some e) path value d = (inl (not_written e), d)

abbrev pub write_secret : System → Bytes → Bytes → Answer (Unit {0}) → Answer Bytes
write_secret s path value (inl e, d) = (inl e, d)
write_secret s path value (inr _, d) = written (s.write_file path) path value d

-- The path of the file for a secret in the environment variable `env`.
unfoldable pub secret_path : System → Bytes → Bytes → Bytes
secret_path s env ref = s.path_join (s.file_name (env ++ codes "." ++ ref))

abbrev pub store_value : System → Bytes → Bytes → Bool → Disk → ℕ ⊎ Bytes → Answer Bytes
store_value s env ref to_file d (inl e) = (inl (unresolved e), d)
store_value s env ref false d (inr value) = (inr value, d)
store_value s env ref true d (inr value) =
    write_secret s (secret_path s env ref) value (ensure_secure_dir s d)

abbrev pub resolve_ref : System → Bytes → Bytes → Bool → Disk → Answer Bytes
resolve_ref s env ref to_file d = store_value s env ref to_file d (s.get_secret_value ref)

abbrev pub resolve_target : System → Bytes → Bytes → Disk → Option Bytes → Answer Bytes
resolve_target s env ref d none = resolve_ref s env ref false d
resolve_target s env ref d (some name) = resolve_ref s env name true d

abbrev pub resolve_value : System → Bytes → Bytes → Disk → Option Bytes → Answer Bytes
resolve_value s env value d none = (inr value, d)
resolve_value s env value d (some ref) = resolve_target s env ref d (cut_suffix file_suffix ref)

-- secretResolver.resolve, with a manager
unfoldable pub resolve : System → Bytes → Bytes → Disk → Answer Bytes
unfolding ensure_secure_dir secret_path cut_suffix
resolve s env value d = resolve_value s env value d (cut_prefix secret_prefix value)

abbrev pub cons_answer : Bytes → Answer (List Bytes) → Answer (List Bytes)
cons_answer v (inl e, d) = (inl e, d)
cons_answer v (inr vs, d) = (inr (v ∷ vs), d)

abbrev pub and_then : (Disk → Answer (List Bytes)) → Answer Bytes → Answer (List Bytes)
and_then rest (inl e, d) = (inl e, d)
and_then rest (inr v, d) = cons_answer v (rest d)

-- The loop over the values, which stops at the first error.
unfoldable pub resolve_all : System → Bytes → List Bytes → Disk → Answer (List Bytes)
unfolding resolve
resolve_all s env [] d = (inr [], d)
resolve_all s env (v ∷ vs) d = and_then (resolve_all s env vs) (resolve s env v d)

abbrev pub joined : Answer (List Bytes) → Answer Bytes
joined (inl e, d) = (inl e, d)
joined (inr vs, d) = (inr (join 44 vs), d)

-- The mutator that Resolver returns
unfoldable pub resolver : System → Bytes → Bytes → Disk → Answer Bytes
unfolding resolve_all
resolver s env value d = joined (resolve_all s env (split 44 value) d)
