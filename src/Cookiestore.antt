-- ===== src/Cookiestore.antt =====
-- cookiestore/codec.go and cookiestore/cookiestore.go: a codec whose keys are asked for on every call.
-- securecookie.EncodeMulti and securecookie.DecodeMulti are parameters, as functions of the keys.
pub mod Bounds
mod Tests
use go_bananas.Base.{
  ℕ, ◌≤◌, Bool, true, false, Option, none, some, List, [], ◌∷◌, Bytes, codes, ◌⊎◌, inl, inr, leb,
  ltb, length, ◌*◌, take, drop, if◌then◌else◌, suc,
}
use go_bananas.Base.Int.{ℤ, pos, ltb_ℤ}

-- The hash key and the block key of a cookie
abbrev pub KeyPair : Type 0
KeyPair = Bytes × Bytes

pub data Error : Type 0 where
  no_entropy : ℕ → Error
  short_key : ℕ → Error
  failed : ℕ → Error

abbrev pub with_pair : KeyPair → Error ⊎ List KeyPair → Error ⊎ List KeyPair
with_pair pair (inl e) = inl e
with_pair pair (inr pairs) = inr (pair ∷ pairs)

-- The loop of newSecureCookies from an index on
unfoldable pub key_pairs : ℕ → List Bytes → Error ⊎ List KeyPair
key_pairs i [] = inr []
key_pairs i (b ∷ bs) =
    let rest = key_pairs (suc i) bs in
    if ltb (length b) 64 then inl (short_key i) else with_pair (drop 32 b, take 32 b) rest

-- HotCodec.newSecureCookies, with what the entropy function gives
unfoldable pub new_secure_cookies : ℕ ⊎ List Bytes → Error ⊎ List KeyPair
unfolding key_pairs
new_secure_cookies (inl e) = inl (no_entropy e)
new_secure_cookies (inr bs) = key_pairs 0 bs

abbrev pub multi {ℓ} : {A : Type ℓ} → (List KeyPair → ℕ ⊎ A) → Error ⊎ List KeyPair → Error ⊎ A
multi call (inl e) = inl e
multi call (inr pairs) = elim (call pairs) [ inl e ↦ inl (failed e) | inr a ↦ inr a ]

module _ {Value : Type 0} (encode_multi : ℤ → Bytes → Value → List KeyPair → ℕ ⊎ Bytes)
    (decode_multi : ℤ → Bytes → Bytes → List KeyPair → ℕ ⊎ Value) (max_age : ℤ) where
  -- HotCodec.Encode
  unfoldable pub encode : Bytes → Value → ℕ ⊎ List Bytes → Error ⊎ Bytes
  unfolding new_secure_cookies
  encode name value entropy = multi (encode_multi max_age name value) (new_secure_cookies entropy)

  -- HotCodec.Decode
  unfoldable pub decode : Bytes → Bytes → ℕ ⊎ List Bytes → Error ⊎ Value
  unfolding new_secure_cookies
  decode name value entropy = multi (decode_multi max_age name value) (new_secure_cookies entropy)

-- The fields of sessions.Options that New reads
pub record Options : Type 0 where
  pub path : Bytes
  pub max_age : ℤ

abbrev pub default_path : Bytes → Bytes
default_path [] = codes "/"
default_path (c ∷ path) = c ∷ path

abbrev pub default_age : ℤ → ℤ
default_age age = if ltb_ℤ (pos 0) age then age else pos (30 * 86400)

abbrev pub set_options : Option Options → Options
set_options none = record { path = []; max_age = pos 0 }
set_options (some opts) = opts

-- New: the options of the store, whose codec has their age limit
unfoldable pub new_options : Option Options → Options
new_options opts = record {
  path = default_path (set_options opts).path;
  max_age = default_age (set_options opts).max_age;
}
