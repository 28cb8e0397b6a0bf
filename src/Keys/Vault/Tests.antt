-- ===== src/Keys/Vault/Tests.antt =====
-- A key with the versions 2 and 10.
use go_bananas.Base.{
  ℕ, ◌≡◌, refl, Option, some, List, [], ◌∷◌, Bytes, codes, list_beq, inr, ◌⊎◌, bytes_eq, ◌==◌,
  if◌then◌else◌,
}
use go_bananas.Base.Int.{ℤ, pos}
use go_bananas.Base.Result.{ok, err}
use go_bananas.Secrets.JsonExpander.{Members, string, no_members, member, field}
use go_bananas.Keys.Vault.{
  Client, missing_version, cut_at, parse_key_id, trim_padding, base64_decode, encrypt, decrypt,
  sign,
}
use go_bananas.Keys.Vault.Versions.{
  SigningKeyVersion, versions_of, signing_key_versions, key_id, new_signer, create_key_version,
}

program : Unit {0}
unfolding cut_at parse_key_id trim_padding base64_decode versions_of signing_key_versions key_id
    new_signer create_key_version encrypt decrypt sign field list_beq
program = tt

abbrev answer : Members
answer = member (codes "ciphertext") (string (codes "vault:v1:x")) (
    member (codes "plaintext") (string (codes "a+/="))
      (member (codes "signature") (string (codes "vault:v1:s+g==")) no_members))

abbrev client : Client
client = record { read = λ path. inr (some no_members); write = λ path d. inr (some answer) }

abbrev versions : Members → ℕ ⊎ List (Bytes × Bytes)
versions d = inr ((codes "10", codes "B") ∷ (codes "2", codes "A") ∷ [])

abbrev parse_int : Bytes → Option ℤ
parse_int s = if s == codes "10" then some (pos 10) else some (pos 2)

abbrev format_int : ℤ → Bytes
format_int n = codes "10"

abbrev keep : Bytes → Option Bytes
keep s = some s

abbrev same : Bytes → Bytes
same s = s

abbrev version_2 : SigningKeyVersion Bytes
version_2 = record { name = codes "k"; version = pos 2; public_key = codes "A" }

abbrev version_10 : SigningKeyVersion Bytes
version_10 = record { name = codes "k"; version = pos 10; public_key = codes "B" }

-- The versions are listed with the oldest first, and the id of the new one is no id for NewSigner.
version_tests :
    (signing_key_versions client keep versions parse_int format_int (codes "k")
      ≡ ok (version_2 ∷ version_10 ∷ []))
    × (create_key_version client keep versions parse_int format_int (codes "k") ≡ ok (codes "k/10"))
    × (new_signer client keep versions parse_int format_int (codes "k/10")
        ≡ err (missing_version (codes "k/10")))
unfolding program
version_tests = (refl, refl, refl)

crypt_tests :
    (encrypt client same inr (codes "k@1") (codes "p") [] ≡ ok (codes "vault:v1:x"))
    × (decrypt client same inr (codes "k@1") (codes "c") [] ≡ ok (codes "a-_"))
    × (sign client same inr (codes "k") (codes "d") ≡ ok (codes "s-g"))
unfolding program
crypt_tests = (refl, refl, refl)
