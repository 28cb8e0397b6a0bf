-- ===== src/Keys/Vault.antt =====
-- keys/vault/vault.go, with internal/util/base64.go: keys in the transit engine of Vault. The client,
-- the decoders of base64, of numbers and of public keys, and mapstructure are parameters. The data of
-- a response has the shape of JSON.
pub mod Versions
mod Tests
use go_bananas.Base.{
  ℕ, Bool, true, false, ◌&&◌, Option, none, some, List, [], ◌∷◌, ◌++◌, map, Bytes, bytes_eq, codes,
  ◌==◌, ◌⊎◌, inl, inr, eqb, split, join, if◌then◌else◌, cut_prefix,
}
use mathlib.Core.List.{reverse}
use go_bananas.Base.Int.{ℤ, ltb_ℤ}
use go_bananas.Base.Result.{Result, ok, err, panic, ◌>>=◌}
use go_bananas.Secrets.JsonExpander.{
  Json, Members, null, boolean, number, string, array, object, no_members, member, field,
}

pub data Error : Type 0 where
  missing_version : Bytes → Error
  not_written : ℕ → Error
  not_called : ℕ → Error
  no_data : Error
  not_decoded : ℕ → Error
  no_text : Bytes → Error
  bad_public_key : Error
  bad_version : Bytes → Error
  no_keys : Error
  not_supported : Error
  missing_name : Error
  wrong_type : Bytes → Error
  no_version : Bytes → Error

-- Logical().Read and Logical().Write: an error, or the data of a response, if it has one
pub record Client : Type 0 where
  pub read : Bytes → ℕ ⊎ Option Members
  pub write : Bytes → Members → ℕ ⊎ Option Members

-- A parsed "name@version" reference
pub record KeyId : Type 0 where
  pub name : Bytes
  pub version : Bytes

-- strings.SplitN into two parts
unfoldable pub cut_at : ℕ → Bytes → Option (Bytes × Bytes)
cut_at sep [] = none
cut_at sep (c ∷ rest) =
    let cut = cut_at sep rest in if eqb c sep then some ([], rest) else put_before c cut
  where
    put_before : ℕ → Option (Bytes × Bytes) → Option (Bytes × Bytes)
    put_before c none = none
    put_before c (some (a, b)) = some (c ∷ a, b)

-- parseKeyID
unfoldable pub parse_key_id : Bytes → Result Error KeyId
unfolding cut_at
parse_key_id id = elim (cut_at 64 id) [
  | none ↦ err (missing_version id)
  | some parts ↦ ok (record { name = parts.0; version = parts.1 })
]

abbrev pub url_char : ℕ → ℕ
url_char c = if eqb c 43 then 45 else if eqb c 47 then 95 else c

-- strings.TrimRight of "="
unfoldable pub trim_padding : Bytes → Bytes
trim_padding [] = []
trim_padding (c ∷ s) = let rest = trim_padding s in if rest == [] && eqb c 61 then [] else c ∷ rest

-- Base64Decode, with base64.RawURLEncoding
unfoldable pub base64_decode : (Bytes → ℕ ⊎ Bytes) → Bytes → ℕ ⊎ Bytes
unfolding trim_padding
base64_decode raw_url s = raw_url (trim_padding (map url_char s))

-- strings.Trim of "/"
abbrev pub trim_left_slashes : Bytes → Bytes
trim_left_slashes [] = []
trim_left_slashes (c ∷ s) = if eqb c 47 then trim_left_slashes s else c ∷ s

abbrev pub trim_slashes : Bytes → Bytes
trim_slashes s = reverse (trim_left_slashes (reverse (trim_left_slashes s)))

abbrev pub called : ℕ ⊎ Option Members → Result Error (Option Members)
called (inl e) = err (not_called e)
called (inr d) = ok d

abbrev pub present : Option Members → Result Error Members
present none = err no_data
present (some d) = ok d

-- A response without data is read as a nil pointer.
abbrev pub dereferenced : Option Members → Result Error Members
dereferenced none = panic
dereferenced (some d) = ok d

abbrev pub text_of : Bytes → Option Json → Result Error Bytes
text_of key (some (string s)) = ok s
text_of key none = err (no_text key)
text_of key (some null) = err (no_text key)
text_of key (some (boolean b)) = err (no_text key)
text_of key (some (number n)) = err (no_text key)
text_of key (some (array js)) = err (no_text key)
text_of key (some (object ms)) = err (no_text key)

abbrev pub members_of : Error → Option Json → Result Error Members
members_of e (some (object ms)) = ok ms
members_of e none = err e
members_of e (some null) = err e
members_of e (some (boolean b)) = err e
members_of e (some (number n)) = err e
members_of e (some (string s)) = err e
members_of e (some (array js)) = err e

abbrev pub decoded : ℕ ⊎ Bytes → Result Error Bytes
decoded (inl e) = err (not_decoded e)
decoded (inr b) = ok b

module _ (client : Client) (encode64 : Bytes → Bytes) (raw_url : Bytes → ℕ ⊎ Bytes) where
  -- HashiCorpVault.Encrypt
  unfoldable pub encrypt : Bytes → Bytes → Bytes → Result Error Bytes
  unfolding parse_key_id field
  encrypt id plaintext aad = parse_key_id id >>= λ k.
      called (
        client.write (codes "transit/encrypt/" ++ k.name) (
          member (codes "plaintext") (string (encode64 plaintext)) (
            member (codes "context") (string (encode64 aad))
              (member (codes "type") (string (codes "aes256-gcm96")) no_members))))
      >>= dereferenced
      >>= λ d. text_of (codes "ciphertext") (field (codes "ciphertext") d)

  -- HashiCorpVault.Decrypt
  unfoldable pub decrypt : Bytes → Bytes → Bytes → Result Error Bytes
  unfolding parse_key_id field base64_decode
  decrypt id ciphertext aad = parse_key_id id >>= λ k.
      called (
        client.write (codes "transit/decrypt/" ++ k.name) (
          member (codes "ciphertext") (string ciphertext)
            (member (codes "context") (string (encode64 aad)) no_members)))
      >>= dereferenced
      >>= λ d. text_of (codes "plaintext") (field (codes "plaintext") d) >>= λ text.
          decoded (base64_decode raw_url text)

  -- HashiCorpVault.CreateSigningKey
  unfoldable pub create_signing_key : Bytes → Bytes → Result Error Bytes
  unfolding join
  create_signing_key parent name =
      let id = trim_slashes (join 47 (parent ∷ name ∷ [])) in
      called (
        client.write (codes "/transit/keys/" ++ id) (
          member (codes "name") (string name)
            (member (codes "type") (string (codes "ecdsa-p256")) no_members)))
      >>= λ d. ok id

  -- HashiCorpVault.DestroyKeyVersion
  unfoldable pub destroy_key_version : Bytes → Result Error (Unit {0})
  destroy_key_version id = err not_supported

  abbrev pub last_part : List Bytes → Bytes
  last_part [] = []
  last_part (p ∷ []) = p
  last_part (p ∷ q ∷ ps) = last_part (q ∷ ps)

  -- strings.SplitN into at most three parts
  abbrev pub in_three : Bytes → List Bytes
  in_three s = elim (cut_at 58 s) [
    | none ↦ s ∷ []
    | some first ↦ elim (cut_at 58 first.1) [
      | none ↦ first.0 ∷ first.1 ∷ []
      | some second ↦ first.0 ∷ second.0 ∷ second.1 ∷ []
    ]
  ]

  -- Signer.Sign, of the name of a signer
  unfoldable pub sign : Bytes → Bytes → Result Error Bytes
  unfolding field base64_decode cut_at
  sign name digest =
      called (
        client.write (codes "transit/sign/" ++ name ++ codes "/sha2-256") (
          member (codes "input") (string (encode64 digest)) (
            member (codes "prehashed") (boolean true)
              (member (codes "marshaling_algorithm") (string (codes "asn1")) no_members))))
      >>= present
      >>= λ d. text_of (codes "signature") (field (codes "signature") d) >>= λ signature.
          decoded (base64_decode raw_url (last_part (in_three signature)))
