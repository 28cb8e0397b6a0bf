-- ===== src/Keys/Filesystem/Rotation.antt =====
-- keys/filesystem.go: new keys and new versions leave every file in place, so ciphertexts stay readable.
use go_bananas.Base.{
  ℕ, ◌≡◌, ◌≢◌, ◌⊎◌, inl, inr, refl, sym, ap, subst, ◌∙◌, Option, none, some, List, [], ◌∷◌, Bytes,
  bytes_eq, ◌==◌, arith, length, AllLack, Bool-cases,
}
use go_bananas.Base.Dict
use go_bananas.Base.Dict.{lookup-insert}
use go_bananas.Base.Result.{Result, ok, err, panic, ◌>>=◌}
use go_bananas.Paths
use go_bananas.Paths.Within.{safe_join-eq-inr}
use go_bananas.Paths.{safe_join, join_paths}
use go_bananas.Keys.Filesystem.{
  Disk, System, Gcm, Codec, Error, metadata, resolve, read_dir, encrypt, decrypt, make_dirs,
  write_new, parsed, with_metadata, read_metadata, in_directory, create_at, create_key, generated,
  write_version, add_version, create_key_version, metadata_for_key,
}
use go_bananas.Keys.Filesystem.Decrypts.{IsAead, Keeps, decrypt-encrypt}

insert-Keeps :
    (d : Disk) (file b : Bytes)
    → Dict.lookup file d.files ≡ none
    → Keeps d (record d { files = Dict.insert file b d.files })
insert-Keeps d file b free path c there =
    ground (arith, lookup-insert file path b d.files, bytes_eq.equals_iff file path, there, kept)
  where
    kept : file ≢ path
    kept e = absurd (ground (arith, sym free ∙ ap (λ p. Dict.lookup p d.files) e ∙ there))

module _ (s : System) (root : Bytes) (j : Codec) where
  written-Keeps :
      (path file b : Bytes) (d : Disk) (o : Option ℕ)
      → Dict.lookup file d.files ≡ none
      → Keeps d (write_new s root j path file b d o).1
  written-Keeps path file b d (some e) free = λ p c there. there
  written-Keeps path file b d none free = insert-Keeps d file b free

  parsed-Keeps :
      (path key_type : Bytes) (d : Disk) (o : Option Bytes)
      → Keeps d (parsed s root j path key_type d o).1
  parsed-Keeps path key_type d none = λ p c there. there
  parsed-Keeps path key_type d (some t) = elim (Bool-cases (t == key_type)) [
    | inl same ↦ rw same (λ p c there. there)
    | inr other ↦ rw other (λ p c there. there)
  ]

  with_metadata-Keeps :
      (path key_type : Bytes) (d : Disk) (o : Option Bytes)
      → Dict.lookup (join_paths path metadata) d.files ≡ o
      → o ≢ some []
      → Keeps d (with_metadata s root j path key_type d o).1
  with_metadata-Keeps path key_type d none found full =
      written-Keeps path (join_paths path metadata) (j.marshal key_type) d _ found
  with_metadata-Keeps path key_type d (some []) found full = absurd (full refl)
  with_metadata-Keeps path key_type d (some (c ∷ b)) found full =
      parsed-Keeps path key_type d (j.unmarshal (c ∷ b))

  in_directory-Keeps :
      (path key_type : Bytes) (d : Disk) (o : Option ℕ)
      → Dict.lookup (join_paths path metadata) d.files ≢ some []
      → Keeps d (in_directory s root j path key_type d o).1
  unfolding make_dirs
  in_directory-Keeps path key_type d (some e) full = λ p c there. there
  in_directory-Keeps path key_type d none full = go (s.read_file (join_paths path metadata))
    where
      go : (o : Option ℕ) → Keeps d (read_metadata s root j path key_type (make_dirs path d) o).1
      go (some e) = λ p c there. there
      go none = with_metadata-Keeps path key_type (make_dirs path d) _ refl full

  create_key-Keeps :
      (parent name key_type : Bytes) (d : Disk)
      → Dict.lookup (join_paths (join_paths root (join_paths parent name)) metadata) d.files
        ≢ some []
      → Keeps d (create_key s root j parent name key_type d).1
  unfolding create_key
  create_key-Keeps parent name key_type d full = go (safe_join root (join_paths parent name)) refl
    where
      go :
          (r : Paths.Error ⊎ Bytes)
          → safe_join root (join_paths parent name) ≡ r
          → Keeps d (create_at s root j key_type d r).1
      go (inl e) joined = λ p c there. there
      go (inr path) joined = in_directory-Keeps path key_type d (s.mkdir_all path) (
          subst (λ p. Dict.lookup (join_paths p metadata) d.files ≢ some [])
            (sym (safe_join-eq-inr root (join_paths parent name) path joined).0) full)

  create_key_version-Keeps :
      (parent stamp : Bytes) (signing_key dek : ℕ ⊎ Bytes) (d : Disk)
      → Dict.lookup (join_paths (join_paths root parent) stamp) d.files ≡ none
      → Keeps d (create_key_version s root j parent signing_key dek stamp d).1
  unfolding create_key_version
  create_key_version-Keeps parent stamp signing_key dek d free =
      go (metadata_for_key s root j parent d >>= generated s root j signing_key dek)
    where
      path : Bytes
      path = join_paths (join_paths root parent) stamp

      go : (r : Result Error Bytes) → Keeps d (add_version s root j parent stamp d r).1
      go panic = λ p c there. there
      go (err e) = λ p c there. there
      go (ok b) = put (s.write_file path)
        where
          put : (o : Option ℕ) → Keeps d (write_version s root j path d b o).1
          put (some e) = λ p c there. there
          put none = insert-Keeps d path b free

  -- A later disk: keys and versions are created, with or without success. The stamp of a version
  -- is new, and no metadata file is empty.
  pub data Later (d : Disk) : Disk → Type 0 where
    now : Later d d
    then_key :
        {d1 d2 : Disk}
        → Later d d1
        → (parent name key_type : Bytes)
        → Dict.lookup (join_paths (join_paths root (join_paths parent name)) metadata) d1.files
          ≢ some []
        → d2 ≡ (create_key s root j parent name key_type d1).1
        → Later d d2
    then_version :
        {d1 d2 : Disk}
        → Later d d1
        → (parent stamp : Bytes) (signing_key dek : ℕ ⊎ Bytes)
        → Dict.lookup (join_paths (join_paths root parent) stamp) d1.files ≡ none
        → d2 ≡ (create_key_version s root j parent signing_key dek stamp d1).1
        → Later d d2

  pub Later-Keeps : {d d' : Disk} → Later d d' → Keeps d d'
  Later-Keeps now = λ p c there. there
  Later-Keeps {d} (then_key {d1 = d1} {d2 = d2} before parent name key_type full e) = λ p c there.
      subst (λ d2. Dict.lookup p d2.files ≡ some c) (sym e)
        (create_key-Keeps parent name key_type d1 full p c (Later-Keeps before p c there))
  Later-Keeps {d} (then_version {d1 = d1} {d2 = d2} before parent stamp signing_key dek free e) =
      λ p c there.
        subst (λ d2. Dict.lookup p d2.files ≡ some c) (sym e)
          (create_key_version-Keeps parent stamp signing_key dek d1 free p c
            (Later-Keeps before p c there))

  -- What Encrypt returns for a key, Decrypt turns back into the plaintext, with the same additional
  -- data, at once and after any further keys and key versions have been created. The cipher opens
  -- what it seals, the nonce has its size, no listed version has a colon in its name, the stamps of
  -- the versions created since were unused, and no metadata file was empty.
  pub decrypt-encrypt-Later :
      (g : Gcm) (key path nonce plaintext aad ciphertext : Bytes) (names : List Bytes) (d d' : Disk)
      → IsAead g
      → length nonce ≡ g.nonce_size
      → resolve root (join_paths [] key) ≡ ok path
      → read_dir d path ≡ ok names
      → AllLack 58 names
      → encrypt s root g key (inr nonce) plaintext aad d ≡ ok ciphertext
      → Later d d'
      → decrypt s root g key ciphertext aad d' ≡ ok plaintext
  decrypt-encrypt-Later g key path nonce plaintext aad ciphertext names d d' law size at lists lacks
        h later =
      decrypt-encrypt s root g key path nonce plaintext aad ciphertext names d d' law size at lists
        lacks h (Later-Keeps later)
