-- ===== src/Cookiestore/Tests.antt =====
-- Keys of 65 and of 3 bytes.
use go_bananas.Base.{ℕ, ◌≡◌, ◌⊎◌, refl, none, List, [], ◌∷◌, Bytes, codes, replicate, inl, inr}
use go_bananas.Base.Int.{pos}
use go_bananas.Cookiestore.{KeyPair, short_key, key_pairs, new_secure_cookies, new_options}
use go_bananas.Cookiestore.Bounds.{AreCut, IsFirstShort, new_secure_cookies-AreCut}

abbrev keys : List Bytes
keys = replicate 65 7 ∷ codes "abc" ∷ []

short_test : new_secure_cookies (inr keys) ≡ inl (short_key 1)
unfolding new_secure_cookies key_pairs
short_test = refl

options_test : new_options none ≡ record { path = codes "/"; max_age = pos 2592000 }
unfolding new_options
options_test = refl

new_secure_cookies-AreCut_example :
    ((pairs : List KeyPair) × (new_secure_cookies (inr keys) ≡ inr pairs) × AreCut keys pairs)
    ⊎ ((k : ℕ) × (new_secure_cookies (inr keys) ≡ inl (short_key k)) × IsFirstShort k keys)
new_secure_cookies-AreCut_example = new_secure_cookies-AreCut keys
