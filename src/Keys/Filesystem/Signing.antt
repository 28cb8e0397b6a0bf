-- ===== src/Keys/Filesystem/Signing.antt =====
-- keys/filesystem.go: signers, and the versions of a signing key, newest first.
use go_bananas.Base.{
  Bool, not, ◌||◌, ◌&&◌, Option, List, [], ◌∷◌, Bytes, bytes_eq, cut_prefix, cut_suffix, is_some,
  ◌==◌, if◌then◌else◌,
}
use go_bananas.Base.Dict.{Dict}
use go_bananas.Base.Result.{Result, ok, err, ◌>>=◌}
use go_bananas.Flash.{bytes_ltb}
use go_bananas.Secrets.Filesystem.{trim_prefix}
use go_bananas.Paths.{clean, rel, base_of, check_rel, join_paths}
use go_bananas.Keys.Filesystem.{
  Disk, Error, System, Codec, metadata, signing, try, required, resolved, resolve, read_file,
  dir_prefix, metadata_for_key, not_read, not_type, bad_signing_key,
}

module _ (s : System) (root : Bytes) where
  module _ {PrivateKey : Type 0} (parse : Bytes → Option PrivateKey) where
    -- Filesystem.NewSigner
    unfoldable pub new_signer : Bytes → Disk → Result Error PrivateKey
    unfolding resolve read_file
    new_signer key d = resolve root (join_paths [] key) >>= λ path.
        read_file s d path >>= λ b. required bad_signing_key (parse b)

    -- The files that filepath.Walk visits below a directory, the metadata aside
    abbrev pub is_below : Bytes → Bytes → Bool
    is_below dir path = is_some (cut_prefix (dir_prefix dir) path)

    abbrev pub is_metadata : Bytes → Bool
    is_metadata path = is_some (cut_suffix (47 ∷ metadata) path) || path == metadata

    -- One call of the walk's function, on a file; the root that it reads through refuses what lies
    -- outside of it.
    abbrev pub visit :
        Bytes
        → Bytes
        → Bytes
        → Result Error (List (Bytes × PrivateKey))
        → Result Error (List (Bytes × PrivateKey))
    visit dir path b rest =
        if is_below dir path && not (is_metadata path)
        then (resolved (check_rel path (rel (clean (base_of root)) (clean path))) >>= λ p.
            try not_read (s.read_file path) >>= λ u. required bad_signing_key (parse b) >>= λ pk.
            rest >>= λ versions. ok ((trim_prefix root path, pk) ∷ versions))
        else rest

    unfoldable pub walk_versions :
        Bytes → Dict Bytes Bytes → Result Error (List (Bytes × PrivateKey))
    unfolding cut_prefix cut_suffix rel clean
    walk_versions dir [] = ok []
    walk_versions dir ((path, b) ∷ files) = visit dir path b (walk_versions dir files)

    abbrev pub insert_version :
        Bytes × PrivateKey → List (Bytes × PrivateKey) → List (Bytes × PrivateKey)
    insert_version v [] = v ∷ []
    insert_version v (w ∷ ws) = if bytes_ltb v.0 w.0 then w ∷ insert_version v ws else v ∷ w ∷ ws

    -- sort.Slice by descending name
    unfoldable pub newest_first : List (Bytes × PrivateKey) → List (Bytes × PrivateKey)
    newest_first [] = []
    newest_first (v ∷ vs) = insert_version v (newest_first vs)

    abbrev pub of_signing : Bytes → Result Error (Unit {0})
    of_signing t = if t == signing then ok tt else err (not_type signing)

    -- Filesystem.SigningKeyVersions
    unfoldable pub signing_key_versions :
        Codec → Bytes → Disk → Result Error (List (Bytes × PrivateKey))
    unfolding metadata_for_key walk_versions newest_first
    signing_key_versions j parent d = metadata_for_key s root j parent d >>= of_signing >>= λ u.
        walk_versions (join_paths root parent) d.files >>= λ versions. ok (newest_first versions)
