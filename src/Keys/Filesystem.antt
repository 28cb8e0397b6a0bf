-- ===== src/Keys/Filesystem.antt =====
-- keys/filesystem.go: keys as directories below a root, with a file for each version and one of
-- metadata. Directories and files are known by their cleaned paths; the errors of the file system,
-- AES-GCM, the JSON codec, x509 and the random source are parameters, and `stamp` is the decimal
-- of time.Now().UnixNano(). The locks make each operation one step.
pub mod Signing
pub mod Names
pub mod Decrypts
pub mod Rotation
pub mod Greatest
pub mod Types
mod Tests
use go_bananas.Base.{
  ℕ, Bool, true, false, not, ◌||◌, ◌&&◌, Option, none, some, List, [], ◌∷◌, ◌++◌, Bytes, bytes_eq,
  codes, cut_prefix, cut_suffix, is_some, ◌==◌, ◌⊎◌, inl, inr, if◌then◌else◌, eqb, leb, length,
  take, drop, any,
}
use go_bananas.Base.Dict
use go_bananas.Base.Dict.{Dict}
use go_bananas.Base.Result.{Result, ok, err, panic, ◌>>=◌}
use go_bananas.Flash.{bytes_ltb}
use go_bananas.Paths
use go_bananas.Secrets.Filesystem.{trim_prefix}
use go_bananas.Paths.{FilePath, clean, render, rel, base_of, check_rel, safe_join, join_paths}

pub record Disk : Type 0 where
  pub dirs : List Bytes
  pub files : Dict Bytes Bytes

pub data Error : Type 0 where
  bad_path : Paths.Error → Error
  not_listed : Error
  no_versions : Error
  no_key : Bytes → Error
  not_found : Error
  not_read : ℕ → Error
  not_made : ℕ → Error
  not_written : ℕ → Error
  not_removed : ℕ → Error
  not_random : ℕ → Error
  bad_cipher : ℕ → Error
  missing_version : Error
  malformed : Error
  not_opened : Error
  bad_metadata : Error
  not_type : Bytes → Error
  unknown_type : Bytes → Error
  bad_signing_key : Error

-- What the calls of package os report besides a missing file or directory
pub record System : Type 0 where
  pub mkdir_all : Bytes → Option ℕ
  pub read_file : Bytes → Option ℕ
  pub write_file : Bytes → Option ℕ
  pub remove : Bytes → Option ℕ

-- aes.NewCipher with cipher.NewGCM, and the AEAD of a key
pub record Gcm : Type 0 where
  pub new_cipher : Bytes → Option ℕ
  pub nonce_size : ℕ
  pub seal : Bytes → Bytes → Bytes → Bytes → Bytes
  pub open_sealed : Bytes → Bytes → Bytes → Bytes → Option Bytes

-- json.Marshal and json.Unmarshal of filesystemKeyInfo, which is its key type
pub record Codec : Type 0 where
  pub marshal : Bytes → Bytes
  pub unmarshal : Bytes → Option Bytes

abbrev pub metadata : Bytes
metadata = codes "metadata"

abbrev pub signing : Bytes
signing = codes "signing"

abbrev pub encryption : Bytes
encryption = codes "encryption"

abbrev pub lift {ℓ} : {A : Type ℓ} → (ℕ → Error) → ℕ ⊎ A → Result Error A
lift wrap (inl e) = err (wrap e)
lift wrap (inr a) = ok a

abbrev pub try : (ℕ → Error) → Option ℕ → Result Error (Unit {0})
try wrap (some e) = err (wrap e)
try wrap none = ok tt

abbrev pub required {ℓ} : {A : Type ℓ} → Error → Option A → Result Error A
required e none = err e
required e (some a) = ok a

abbrev pub resolved : Paths.Error ⊎ Bytes → Result Error Bytes
resolved (inl e) = err (bad_path e)
resolved (inr path) = ok path

-- Filesystem.resolve of a path that filepath.Join has put together
unfoldable pub resolve : Bytes → Bytes → Result Error Bytes
resolve root joined = resolved (safe_join root joined)

-- os.ReadFile
unfoldable pub read_file : System → Disk → Bytes → Result Error Bytes
read_file s d path =
    try not_read (s.read_file path) >>= λ u. required not_found (Dict.lookup path d.files)

abbrev pub is_name : Bytes → Bool
is_name w = not (w == [] || w == codes "." || w == codes ".." || any (λ c. eqb c 47) w)

abbrev pub dir_prefix : Bytes → Bytes
dir_prefix dir = if dir == codes "." then [] else if dir == codes "/" then dir else dir ++ 47 ∷ []

abbrev pub entry_names : Option Bytes → List Bytes → List Bytes
entry_names none names = names
entry_names (some w) names = if is_name w then w ∷ names else names

abbrev pub children : Bytes → List Bytes → List Bytes
children dir [] = []
children dir (p ∷ ps) = entry_names (cut_prefix (dir_prefix dir) p) (children dir ps)

abbrev pub paths : Dict Bytes Bytes → List Bytes
paths [] = []
paths ((p, b) ∷ fs) = p ∷ paths fs

-- os.ReadDir, with the names in the order of the disk; its callers use no order.
unfoldable pub read_dir : Disk → Bytes → Result Error (List Bytes)
unfolding cut_prefix
read_dir d dir =
    if any (λ p. p == dir) d.dirs
    then ok (children dir d.dirs ++ children dir (paths d.files))
    else err not_listed

abbrev pub newer : Bytes → Option Bytes → Bytes
newer name none = name
newer name (some best) = if bytes_ltb best name then name else best

-- The loop for the most recent version
unfoldable pub latest : Option Bytes → List Bytes → Option Bytes
unfolding bytes_ltb
latest best [] = best
latest best (name ∷ names) =
    latest (if name == metadata then best else some (newer name best)) names

abbrev pub nonempty : List Bytes → Result Error (Unit {0})
nonempty [] = err no_versions
nonempty (name ∷ names) = ok tt

-- bytes.SplitN at the first colon
unfoldable pub cut_version : Bytes → Option (Bytes × Bytes)
cut_version [] = none
cut_version (c ∷ rest) =
    let cut = cut_version rest in if eqb c 58 then some ([], rest) else put_version c cut
  where
    put_version : ℕ → Option (Bytes × Bytes) → Option (Bytes × Bytes)
    put_version c none = none
    put_version c (some (version, sealed)) = some (c ∷ version, sealed)

abbrev pub add_dir : Bytes → List Bytes → List Bytes
add_dir dir dirs = if any (λ p. p == dir) dirs then dirs else dir ∷ dirs

abbrev pub add_dirs : Bool → List Bytes → List Bytes → List Bytes → List Bytes
add_dirs rooted above [] dirs = dirs
add_dirs rooted above (p ∷ ps) dirs =
    add_dirs rooted (above ++ p ∷ []) ps
      (add_dir (render (record { rooted = rooted; parts = above ++ p ∷ [] })) dirs)

-- os.MkdirAll: the directory of a path, and those above it
unfoldable pub make_dirs : Bytes → Disk → Disk
unfolding clean render
make_dirs path d = record d { dirs = add_dirs (clean path).rooted [] (clean path).parts d.dirs }

module _ (s : System) (root : Bytes) where
  module _ (g : Gcm) where
    -- Filesystem.Encrypt, with the nonce that it reads
    unfoldable pub encrypt : Bytes → ℕ ⊎ Bytes → Bytes → Bytes → Disk → Result Error Bytes
    unfolding resolve read_file read_dir latest
    encrypt key nonce plaintext aad d = resolve root (join_paths [] key) >>= λ path.
        read_dir d path >>= λ names. nonempty names >>= λ u.
        required (no_key key) (latest none names) >>= λ version.
        read_file s d (join_paths path version) >>= λ dek.
        try bad_cipher (g.new_cipher dek) >>= λ u.
        lift not_random nonce >>= λ n. ok (version ++ 58 ∷ (n ++ g.seal dek n plaintext aad))

    abbrev pub opened : Bytes → Bytes → Bytes → Result Error Bytes
    opened dek sealed aad =
        if leb g.nonce_size (length sealed)
        then required not_opened
            (g.open_sealed dek (take g.nonce_size sealed) (drop g.nonce_size sealed) aad)
        else err malformed

    -- Filesystem.Decrypt
    unfoldable pub decrypt : Bytes → Bytes → Bytes → Disk → Result Error Bytes
    unfolding resolve read_file cut_version
    decrypt key ciphertext aad d =
        required missing_version (cut_version ciphertext) >>= λ (version, sealed).
        resolve root (join_paths key version) >>= λ path. read_file s d path >>= λ dek.
        try bad_cipher (g.new_cipher dek) >>= λ u. opened dek sealed aad

  module _ (j : Codec) where
    -- Filesystem.metadataForKey
    unfoldable pub metadata_for_key : Bytes → Disk → Result Error Bytes
    unfolding resolve read_file
    metadata_for_key parent d = resolve root (join_paths parent metadata) >>= λ path.
        read_file s d path >>= λ b. required bad_metadata (j.unmarshal b)

    abbrev pub write_new : Bytes → Bytes → Bytes → Disk → Option ℕ → Result Error Bytes × Disk
    write_new path file b d (some e) = (err (not_written e), d)
    write_new path file b d none =
        (ok (trim_prefix root path), record d { files = Dict.insert file b d.files })

    abbrev pub parsed : Bytes → Bytes → Disk → Option Bytes → Result Error Bytes × Disk
    parsed path key_type d none = (err bad_metadata, d)
    parsed path key_type d (some t) =
        if t == key_type then (ok (trim_prefix root path), d) else (err (not_type key_type), d)

    abbrev pub with_metadata : Bytes → Bytes → Disk → Option Bytes → Result Error Bytes × Disk
    with_metadata path key_type d none =
        write_new path (join_paths path metadata) (j.marshal key_type) d
          (s.write_file (join_paths path metadata))
    with_metadata path key_type d (some []) =
        write_new path (join_paths path metadata) (j.marshal key_type) d
          (s.write_file (join_paths path metadata))
    with_metadata path key_type d (some (c ∷ b)) = parsed path key_type d (j.unmarshal (c ∷ b))

    abbrev pub read_metadata : Bytes → Bytes → Disk → Option ℕ → Result Error Bytes × Disk
    read_metadata path key_type d (some e) = (err (not_read e), d)
    read_metadata path key_type d none =
        with_metadata path key_type d (Dict.lookup (join_paths path metadata) d.files)

    abbrev pub in_directory : Bytes → Bytes → Disk → Option ℕ → Result Error Bytes × Disk
    in_directory path key_type d (some e) = (err (not_made e), d)
    in_directory path key_type d none =
        read_metadata path key_type (make_dirs path d) (s.read_file (join_paths path metadata))

    abbrev pub create_at : Bytes → Disk → Paths.Error ⊎ Bytes → Result Error Bytes × Disk
    create_at key_type d (inl e) = (err (bad_path e), d)
    create_at key_type d (inr path) = in_directory path key_type d (s.mkdir_all path)

    -- Filesystem.createKey, with the two operations that call it
    unfoldable pub create_key : Bytes → Bytes → Bytes → Disk → Result Error Bytes × Disk
    unfolding make_dirs
    create_key parent name key_type d =
        create_at key_type d (safe_join root (join_paths parent name))

    abbrev pub create_signing_key : Bytes → Bytes → Disk → Result Error Bytes × Disk
    create_signing_key parent name d = create_key parent name signing d

    abbrev pub create_encryption_key : Bytes → Bytes → Disk → Result Error Bytes × Disk
    create_encryption_key parent name d = create_key parent name encryption d

    -- The two sources of a new version: a marshalled ECDSA key, and 32 random bytes
    abbrev pub generated : ℕ ⊎ Bytes → ℕ ⊎ Bytes → Bytes → Result Error Bytes
    generated signing_key dek t =
        if t == signing
        then lift not_random signing_key
        else if t == encryption
        then lift not_random dek
        else err (unknown_type t)

    abbrev pub write_version : Bytes → Disk → Bytes → Option ℕ → Result Error Bytes × Disk
    write_version path d b (some e) = (err (not_written e), d)
    write_version path d b none =
        (ok (trim_prefix root path), record d { files = Dict.insert path b d.files })

    abbrev pub add_version : Bytes → Bytes → Disk → Result Error Bytes → Result Error Bytes × Disk
    add_version parent stamp d (ok b) =
        let path = join_paths (join_paths root parent) stamp in
        write_version path d b (s.write_file path)
    add_version parent stamp d (err e) = (err e, d)
    add_version parent stamp d panic = (panic, d)

    -- Filesystem.CreateKeyVersion; filepath.Join of three elements is joined in two steps.
    unfoldable pub create_key_version :
        Bytes → ℕ ⊎ Bytes → ℕ ⊎ Bytes → Bytes → Disk → Result Error Bytes × Disk
    unfolding metadata_for_key
    create_key_version parent signing_key dek stamp d =
        add_version parent stamp d (metadata_for_key parent d >>= generated signing_key dek)

  abbrev pub removed : Disk → Bytes → Option ℕ → Result Error (Unit {0}) × Disk
  removed d path (some e) = (err (not_removed e), d)
  removed d path none = (ok tt, record d { files = Dict.delete path d.files })

  abbrev pub destroy_at : Disk → Paths.Error ⊎ Bytes → Result Error (Unit {0}) × Disk
  destroy_at d (inl e) = (err (bad_path e), d)
  destroy_at d (inr path) = removed d path (s.remove path)

  -- Filesystem.DestroyKeyVersion
  unfoldable pub destroy_key_version : Bytes → Disk → Result Error (Unit {0}) × Disk
  destroy_key_version id d = destroy_at d (safe_join root (join_paths [] id))
