-- ===== src/Keys/Vault/Versions.antt =====
-- keys/vault/vault.go: the versions of signing keys, and signers of them.
use go_bananas.Base.{
  ℕ, Option, none, some, List, [], ◌∷◌, ◌++◌, Bytes, bytes_eq, codes, ◌==◌, ◌⊎◌, inl, inr,
  if◌then◌else◌,
}
use go_bananas.Base.Int.{ℤ, ltb_ℤ}
use go_bananas.Base.Result.{Result, ok, err, ◌>>=◌}
use go_bananas.Secrets.JsonExpander.{Members, no_members, field}
use go_bananas.Keys.Vault.{
  parse_key_id, called, present, text_of, members_of, Client, Error, not_decoded, bad_public_key,
  bad_version, no_keys, missing_name, wrong_type, no_version,
}

-- signingKeyVersion, without the client and the time of its creation
pub record SigningKeyVersion (PublicKey : Type 0) : Type 0 where
  pub name : Bytes
  pub version : ℤ
  pub public_key : PublicKey

-- Signer, without its client
pub record Signer (PublicKey : Type 0) : Type 0 where
  pub name : Bytes
  pub version : Bytes
  pub public_key : PublicKey

abbrev pub listed : ℕ ⊎ List (Bytes × Bytes) → Result Error (List (Bytes × Bytes))
listed (inl e) = err (not_decoded e)
listed (inr vs) = ok vs

abbrev pub parsed : {PublicKey : Type 0} → Option PublicKey → Result Error PublicKey
parsed none = err bad_public_key
parsed (some k) = ok k

abbrev pub numbered : Bytes → Option ℤ → Result Error ℤ
numbered k none = err (bad_version k)
numbered k (some n) = ok n

abbrev pub insert_version :
    {PublicKey : Type 0}
    → SigningKeyVersion PublicKey
    → List (SigningKeyVersion PublicKey)
    → List (SigningKeyVersion PublicKey)
insert_version v [] = v ∷ []
insert_version v (w ∷ ws) =
    if ltb_ℤ w.version v.version then w ∷ insert_version v ws else v ∷ w ∷ ws

abbrev pub of_ecdsa : Bytes → Result Error (Unit {0})
of_ecdsa type = if type == codes "ecdsa-p256" then ok tt else err (wrong_type type)

-- signingKeyVersion.KeyID
unfoldable pub key_id : {PublicKey : Type 0} → (ℤ → Bytes) → SigningKeyVersion PublicKey → Bytes
key_id format_int v = v.name ++ 47 ∷ format_int v.version

module _ {PublicKey : Type 0} (client : Client) (parse_public_key : Bytes → Option PublicKey)
    (decode_versions : Members → ℕ ⊎ List (Bytes × Bytes)) (parse_int : Bytes → Option ℤ)
    (format_int : ℤ → Bytes) where
  -- The loop over the versions, and the sort by ascending version
  unfoldable pub versions_of :
      Bytes → List (Bytes × Bytes) → Result Error (List (SigningKeyVersion PublicKey))
  versions_of parent [] = ok []
  versions_of parent ((k, pem) ∷ vs) = parsed (parse_public_key pem) >>= λ public.
      numbered k (parse_int k) >>= λ n. versions_of parent vs >>= λ rest.
      ok (insert_version (record { name = parent; version = n; public_key = public }) rest)

  -- HashiCorpVault.SigningKeyVersions
  unfoldable pub signing_key_versions : Bytes → Result Error (List (SigningKeyVersion PublicKey))
  unfolding versions_of
  signing_key_versions parent =
      called (client.read (codes "transit/keys/" ++ parent)) >>= present >>= λ d.
      listed (decode_versions d) >>= versions_of parent

  abbrev pub last_id : List (SigningKeyVersion PublicKey) → Result Error Bytes
  last_id [] = err no_keys
  last_id (v ∷ []) = ok (key_id format_int v)
  last_id (v ∷ w ∷ vs) = last_id (w ∷ vs)

  -- HashiCorpVault.CreateKeyVersion
  unfoldable pub create_key_version : Bytes → Result Error Bytes
  unfolding signing_key_versions key_id
  create_key_version parent =
      called (client.write (codes "/transit/keys/" ++ parent ++ codes "/rotate") no_members)
      >>= λ d. signing_key_versions parent >>= last_id

  -- Signer.getPublicKey
  unfoldable pub get_public_key : Bytes → Bytes → Result Error PublicKey
  unfolding field
  get_public_key name version =
      called (client.read (codes "transit/keys/" ++ name)) >>= present >>= λ d.
      text_of (codes "type") (field (codes "type") d) >>= of_ecdsa >>= λ u.
      members_of no_keys (field (codes "keys") d) >>= λ keys.
      members_of (no_version version) (field version keys) >>= λ key.
      text_of (codes "public_key") (field (codes "public_key") key) >>= λ pem.
      parsed (parse_public_key pem)

  abbrev pub signer_of : Bytes → Bytes → Result Error (Signer PublicKey)
  signer_of [] version = err missing_name
  signer_of (c ∷ name) [] = err (no_version [])
  signer_of (c ∷ name) (d ∷ version) = get_public_key (c ∷ name) (d ∷ version) >>= λ public.
      ok (record { name = c ∷ name; version = d ∷ version; public_key = public })

  -- NewSigner of a client, of the name and the version of a key
  unfoldable pub new_signer_of : Bytes → Bytes → Result Error (Signer PublicKey)
  unfolding get_public_key
  new_signer_of name version = signer_of name version

  -- HashiCorpVault.NewSigner
  unfoldable pub new_signer : Bytes → Result Error (Signer PublicKey)
  unfolding parse_key_id new_signer_of
  new_signer id = parse_key_id id >>= λ k. new_signer_of k.name k.version
