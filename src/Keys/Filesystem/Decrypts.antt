-- ===== src/Keys/Filesystem/Decrypts.antt =====
-- keys/filesystem.go: what Encrypt makes, Decrypt reads, also on a later disk that keeps the files.
use go_bananas.Base.{
  ℕ, ◌≡◌, ◌⊎◌, inl, inr, refl, sym, ap, subst, ◌∙◌, true, Option, none, some, List, [], ◌∷◌, ◌++◌,
  Bytes, bytes_eq, arith, leb, length, Lacks, AllLack, All, length-append, take-append, drop-append,
}
use go_bananas.Base.Dict
use go_bananas.Base.Result.{Result, ok, >>=-eq-ok}
use go_bananas.Paths
use go_bananas.Paths.{dots, safe_join, join_paths}
use go_bananas.Paths.Nested.{safe_join-nested}
use go_bananas.Keys.Filesystem.{
  Disk, System, Gcm, Error, lift, try, required, resolved, resolve, read_file, read_dir, latest,
  nonempty, cut_version, encrypt, opened, decrypt, not_read, not_found, no_key, bad_cipher,
}
use go_bananas.Keys.Filesystem.Names.{IsEntry, read_dir-IsEntry, latest-All}

-- Opening what was sealed with the same key, nonce and additional data gives the plaintext.
abbrev pub IsAead : Gcm → Type 0
IsAead g =
    (dek n plaintext aad : Bytes)
    → length n ≡ g.nonce_size
    → g.open_sealed dek n (g.seal dek n plaintext aad) aad ≡ some plaintext

-- Every file is still there, with the same content.
abbrev pub Keeps : Disk → Disk → Type 0
Keeps d d' =
    (path b : Bytes) → Dict.lookup path d.files ≡ some b → Dict.lookup path d'.files ≡ some b

cut_version-append :
    (v sealed : Bytes) → Lacks 58 v → cut_version (v ++ 58 ∷ sealed) ≡ some (v, sealed)
unfolding cut_version
cut_version-append [] sealed h = ground arith
cut_version-append (c ∷ v) sealed (apart, h) = ground (arith, apart, cut_version-append v sealed h)

AllLack-All : (sep : ℕ) (ws : List Bytes) → AllLack sep ws → All (Lacks sep) ws
AllLack-All sep [] h = tt
AllLack-All sep (w ∷ ws) (h, k) = (h, AllLack-All sep ws k)

none-free : (P : Bytes → Type 0) (b : Bytes) → none ≡ some b → P b
none-free P b e = absurd (ground (arith, e))

-- What a step of Encrypt or Decrypt that succeeded has found
lift-eq-ok {ℓ} :
    {A : Type ℓ} (wrap : ℕ → Error) (r : ℕ ⊎ A) (a : A) → lift wrap r ≡ ok a → r ≡ inr a
lift-eq-ok wrap (inl e) a h = absurd (ground (arith, h))
lift-eq-ok wrap (inr b) a h = ground (arith, h)

required-eq-ok {ℓ} :
    {A : Type ℓ} (e : Error) (o : Option A) (a : A) → required e o ≡ ok a → o ≡ some a
required-eq-ok e none a h = absurd (ground (arith, h))
required-eq-ok e (some b) a h = ground (arith, h)

resolved-eq-ok : (r : Paths.Error ⊎ Bytes) (path : Bytes) → resolved r ≡ ok path → r ≡ inr path
resolved-eq-ok (inl e) path h = absurd (ground (arith, h))
resolved-eq-ok (inr p) path h = ground (arith, h)

nonce_fits : (n b : Bytes) → leb (length n) (length (n ++ b)) ≡ true
nonce_fits n b = ground (arith, length-append n b)

module _ (s : System) (root : Bytes) (g : Gcm) where
  -- A key that is read stays readable while its file is kept.
  read_file-Keeps :
      (d d' : Disk) (path b : Bytes)
      → Keeps d d'
      → read_file s d path ≡ ok b
      → read_file s d' path ≡ ok b
  unfolding read_file
  read_file-Keeps d d' path b keeps h =
      let (u, allowed, found) = >>=-eq-ok (try not_read (s.read_file path)) _ h in
      (rw (allowed, keeps path b (required-eq-ok not_found _ b found)) refl)

  opened-sealed :
      (dek n plaintext aad : Bytes)
      → IsAead g
      → length n ≡ g.nonce_size
      → opened s root g dek (n ++ g.seal dek n plaintext aad) aad ≡ ok plaintext
  opened-sealed dek n plaintext aad law size =
      rw
        (
          sym size,
          nonce_fits n (g.seal dek n plaintext aad),
          take-append n (g.seal dek n plaintext aad),
          drop-append n (g.seal dek n plaintext aad),
          law dek n plaintext aad size,
        )
        refl

  -- The ciphertext of a version
  abbrev pub sealed_by : Bytes → Bytes → Bytes → Bytes → Bytes → Bytes
  sealed_by version dek nonce plaintext aad =
      version ++ 58 ∷ (nonce ++ g.seal dek nonce plaintext aad)

  -- A version of a key that Decrypt finds, if what is sealed by it is given.
  abbrev pub IsVersion : Bytes → Bytes → Bytes → Disk → Type 0
  IsVersion key version dek d =
      (path : Bytes) × (resolve root (join_paths [] key) ≡ ok path)
      × IsEntry version
      × Lacks 58 version
      × (read_file s d (join_paths path version) ≡ ok dek)
      × (try bad_cipher (g.new_cipher dek) ≡ ok tt)

  decrypt-sealed_by :
      (key version dek nonce plaintext aad : Bytes) (d : Disk)
      → IsAead g
      → length nonce ≡ g.nonce_size
      → IsVersion key version dek d
      → decrypt s root g key (sealed_by version dek nonce plaintext aad) aad d ≡ ok plaintext
  unfolding decrypt
  decrypt-sealed_by key version dek nonce plaintext aad d law size
        (path, at, (proper, name), no_colon, reads, fits) =
      let below : resolve root (join_paths key version) ≡ ok (join_paths path version) =
        unfold resolve in
        ap resolved
          (safe_join-nested root key version path proper name (resolved-eq-ok _ path at)) in
      (rw
        (
          cut_version-append version (nonce ++ g.seal dek nonce plaintext aad) no_colon,
          below,
          reads,
          fits,
        )
        (opened-sealed dek nonce plaintext aad law size))

  IsVersion-Keeps :
      (key version dek : Bytes) (d d' : Disk)
      → Keeps d d'
      → IsVersion key version dek d
      → IsVersion key version dek d'
  IsVersion-Keeps key version dek d d' keeps (path, at, entry, no_colon, reads, fits) = (
    path,
    at,
    entry,
    no_colon,
    read_file-Keeps d d' (join_paths path version) dek keeps reads,
    fits,
  )

  -- What Encrypt has used
  pub encrypt-eq-ok :
      (key path nonce plaintext aad ciphertext : Bytes) (names : List Bytes) (d : Disk)
      → resolve root (join_paths [] key) ≡ ok path
      → read_dir d path ≡ ok names
      → AllLack 58 names
      → encrypt s root g key (inr nonce) plaintext aad d ≡ ok ciphertext
      → (version : Bytes) × (dek : Bytes) × (latest none names ≡ some version)
        × (ciphertext ≡ sealed_by version dek nonce plaintext aad)
        × IsVersion key version dek d
  unfolding encrypt
  encrypt-eq-ok key path nonce plaintext aad ciphertext names d at lists lacks h =
      let (path1, at1, h1) = >>=-eq-ok (resolve root (join_paths [] key)) _ h in
      let (names1, lists1, h2) = >>=-eq-ok (read_dir d path1) _ h1 in
      let (u, _, h3) = >>=-eq-ok (nonempty names1) _ h2 in
      let (version, newest, h4) = >>=-eq-ok (required (no_key key) (latest none names1)) _ h3 in
      let (dek, reads, h5) = >>=-eq-ok (read_file s d (join_paths path1 version)) _ h4 in
      let (u, fits, h6) = >>=-eq-ok (try bad_cipher (g.new_cipher dek)) _ h5 in
      let same_names : names1 ≡ names = listed_same path1 names1 at1 lists1 in
      let is_latest = required-eq-ok (no_key key) (latest none names1) version newest in
      (
        version,
        dek,
        subst (λ ns. latest none ns ≡ some version) same_names is_latest,
        sym (ok_injective h6),
        (
          path1,
          at1,
          latest-All {P = IsEntry} none names1 version (read_dir-IsEntry d path1 names1 lists1)
              (none-free IsEntry) is_latest,
          latest-All {P = Lacks 58} none names1 version
              (AllLack-All 58 names1 (subst (AllLack 58) (sym same_names) lacks))
              (none-free (Lacks 58)) is_latest,
          reads,
          fits,
        ),
      )
    where
      ok_injective : {a b : Bytes} → ◌≡◌ {A = Result Error Bytes} (ok a) (ok b) → a ≡ b
      ok_injective e = ground (arith, e)

      listed_same :
          (path1 : Bytes) (names1 : List Bytes)
          → resolve root (join_paths [] key) ≡ ok path1
          → read_dir d path1 ≡ ok names1
          → names1 ≡ names
      listed_same path1 names1 at1 lists1 =
          let same : path1 ≡ path = ok_injective (sym at1 ∙ at) in
          let both : ◌≡◌ {A = Result Error (List Bytes)} (ok names1) (ok names) =
            sym lists1 ∙ ap (read_dir d) same ∙ lists in
          ground (arith, both)

  -- What Encrypt returns for a key, Decrypt turns back into the plaintext, with the same additional
  -- data, on every later disk that keeps the files: newer versions of the key do not matter. The
  -- cipher opens what it seals, the nonce has its size, and no listed version has a colon in its name.
  pub decrypt-encrypt :
      (key path nonce plaintext aad ciphertext : Bytes) (names : List Bytes) (d d' : Disk)
      → IsAead g
      → length nonce ≡ g.nonce_size
      → resolve root (join_paths [] key) ≡ ok path
      → read_dir d path ≡ ok names
      → AllLack 58 names
      → encrypt s root g key (inr nonce) plaintext aad d ≡ ok ciphertext
      → Keeps d d'
      → decrypt s root g key ciphertext aad d' ≡ ok plaintext
  decrypt-encrypt key path nonce plaintext aad ciphertext names d d' law size at lists lacks h
        keeps =
      let (version, dek, _, text, is_version) =
        encrypt-eq-ok key path nonce plaintext aad ciphertext names d at lists lacks h in
      ap (λ c. decrypt s root g key c aad d') text
      ∙ decrypt-sealed_by key version dek nonce plaintext aad d' law size
          (IsVersion-Keeps key version dek d d' keeps is_version)
