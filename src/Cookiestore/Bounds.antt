-- ===== src/Cookiestore/Bounds.antt =====
-- cookiestore/codec.go: every key pair is long enough, or the first short key is reported.
use go_bananas.Base.{
  ℕ, ◌≡◌, ◌⊎◌, inl, inr, refl, ap, ◌∙◌, ◌+◌, ◌≤◌, ◌<◌, List, [], ◌∷◌, ◌++◌, Bytes, arith, ltb,
  length, take, drop, Bool-cases, zero, suc,
}
use go_bananas.Cookiestore.{KeyPair, Error, short_key, with_pair, key_pairs, new_secure_cookies}

-- The pairs are the keys, each cut behind 32 bytes, with at least 32 bytes for the hash key.
abbrev pub AreCut : List Bytes → List KeyPair → Type 0
AreCut [] [] = Unit
AreCut [] (pair ∷ pairs) = ⊥
AreCut (b ∷ bs) [] = ⊥
AreCut (b ∷ bs) ((hash, block) ∷ pairs) =
    (block ++ hash ≡ b) × (length block ≡ 32) × (32 ≤ length hash) × AreCut bs pairs

-- The key at the index is too short, and none before it.
abbrev pub IsFirstShort : ℕ → List Bytes → Type 0
IsFirstShort i [] = ⊥
IsFirstShort zero (b ∷ bs) = length b < 64
IsFirstShort (suc i) (b ∷ bs) = (64 ≤ length b) × IsFirstShort i bs

take-drop : (n : ℕ) (b : Bytes) → take n b ++ drop n b ≡ b
take-drop zero b = refl
take-drop (suc n) [] = refl
take-drop (suc n) (c ∷ b) = ap (◌∷◌ c) (take-drop n b)

length-take : (n : ℕ) (b : Bytes) → n ≤ length b → length (take n b) ≡ n
length-take zero b h = refl
length-take (suc n) [] h = absurd (omega (arith, h))
length-take (suc n) (c ∷ b) h = ap suc (length-take n b (omega (arith, h)))

length-drop : (n : ℕ) (b : Bytes) → n ≤ length b → n + length (drop n b) ≡ length b
length-drop zero b h = omega arith
length-drop (suc n) [] h = absurd (omega (arith, h))
length-drop (suc n) (c ∷ b) h = let e = length-drop n b (omega (arith, h)) in omega (arith, e)

abbrev Outcome : ℕ → List Bytes → Error ⊎ List KeyPair → Type 0
Outcome i bs r =
    ((pairs : List KeyPair) × (r ≡ inr pairs) × AreCut bs pairs)
    ⊎ ((k : ℕ) × (r ≡ inl (short_key (i + k))) × IsFirstShort k bs)

cut_one :
    (i : ℕ) (b : Bytes) (bs : List Bytes) (rest : Error ⊎ List KeyPair)
    → 64 ≤ length b
    → Outcome (suc i) bs rest
    → Outcome i (b ∷ bs) (with_pair (drop 32 b, take 32 b) rest)
cut_one i b bs rest long (inl (pairs, e, cut)) = inl (
  (drop 32 b, take 32 b) ∷ pairs,
  ap (with_pair (drop 32 b, take 32 b)) e,
  (
    take-drop 32 b,
    length-take 32 b (omega (arith, long)),
    (let e = length-drop 32 b (omega (arith, long)) in omega (arith, e, long)),
    cut,
  ),
)
cut_one i b bs rest long (inr (k, e, short)) = inr (
  suc k,
  ap (with_pair (drop 32 b, take 32 b)) e ∙ ap (λ n. inl (short_key n)) (omega arith),
  (long, short),
)

key_pairs-Outcome : (i : ℕ) (bs : List Bytes) → Outcome i bs (key_pairs i bs)
unfolding key_pairs
key_pairs-Outcome i [] = inl ([], refl, tt)
key_pairs-Outcome i (b ∷ bs) = elim (Bool-cases (ltb (length b) 64)) [
  | inl short ↦ rw short (inr (0, ap (λ n. inl (short_key n)) (omega arith), ground (arith, short)))
  | inr long ↦ rw long (cut_one i b bs _ (ground (arith, long)) (key_pairs-Outcome (suc i) bs))
]

-- Either every key that the entropy function gives is cut behind 32 bytes into a block key of 32
-- bytes and a hash key of at least 32, or the error names the index of the first key that has fewer
-- than 64 bytes.
pub new_secure_cookies-AreCut :
    (bs : List Bytes)
    → ((pairs : List KeyPair) × (new_secure_cookies (inr bs) ≡ inr pairs) × AreCut bs pairs)
      ⊎ ((k : ℕ) × (new_secure_cookies (inr bs) ≡ inl (short_key k)) × IsFirstShort k bs)
unfolding new_secure_cookies
new_secure_cookies-AreCut bs = go (key_pairs-Outcome 0 bs)
  where
    go :
        Outcome 0 bs (key_pairs 0 bs)
        → ((pairs : List KeyPair) × (key_pairs 0 bs ≡ inr pairs) × AreCut bs pairs)
          ⊎ ((k : ℕ) × (key_pairs 0 bs ≡ inl (short_key k)) × IsFirstShort k bs)
    go (inl cut) = inl cut
    go (inr (k, e, short)) = inr (k, e ∙ ap (λ n. inl (short_key n)) (omega arith), short)
