-- ===== src/Keys/Filesystem/Greatest.antt =====
-- keys/filesystem.go: Encrypt uses the greatest version.
use go_bananas.Base.{
  ◌≡◌, ◌⊎◌, inl, inr, refl, sym, subst, ◌∙◌, true, false, Option, none, some, List, [], ◌∷◌, ◌++◌,
  Bytes, bytes_eq, ◌==◌, arith, if◌then◌else◌, AllLack, Bool-cases, All, Member, ◌≢◌,
}
use go_bananas.Base.Result.{ok}
use go_bananas.Flash.{bytes_ltb}
use go_bananas.Flash.Sets.{bytes_ltb_trans, bytes_ltb_asymm}
use go_bananas.Paths.{join_paths}
use go_bananas.Keys.Filesystem.{
  Disk, System, Gcm, metadata, resolve, read_dir, latest, newer, encrypt,
}
use go_bananas.Keys.Filesystem.Decrypts.{IsVersion, encrypt-eq-ok}

-- No name but the metadata is greater.
abbrev pub IsGreatest : Bytes → List Bytes → Type 0
IsGreatest v names = All (λ name. (name ≡ metadata) ⊎ (bytes_ltb v name ≡ false)) names

abbrev Bounds : Option Bytes → Bytes → Type 0
Bounds best v = (b : Bytes) → best ≡ some b → bytes_ltb v b ≡ false

newer-Bounds :
    (name : Bytes) (best : Option Bytes) (v : Bytes)
    → bytes_ltb v (newer name best) ≡ false
    → Bounds best v × (bytes_ltb v name ≡ false)
newer-Bounds name none v = λ h. ((λ b e. absurd (ground (arith, e))), h)
newer-Bounds name (some best) v = elim (Bool-cases (bytes_ltb best name)) [
  | inl above ↦ rw above (λ h. (
    (λ b e.
        subst (λ b. bytes_ltb v b ≡ false) (ground (arith, e))
          (bytes_ltb_trans best name v (bytes_ltb_asymm best name above) h)),
    h,
  ))
  | inr below ↦ rw below (λ h. (
    (λ b e. subst (λ b. bytes_ltb v b ≡ false) (ground (arith, e)) h),
    bytes_ltb_trans name best v below h,
  ))
]

irreflexive : (v : Bytes) → bytes_ltb v v ≡ false
irreflexive v = elim (Bool-cases (bytes_ltb v v)) [
  | inl less ↦ bytes_ltb_asymm v v less
  | inr other ↦ other
]

pub latest-IsGreatest :
    (best : Option Bytes) (names : List Bytes) (v : Bytes)
    → latest best names ≡ some v
    → IsGreatest v names × Bounds best v
unfolding latest
latest-IsGreatest best [] v h =
    (tt, λ b e. subst (λ b. bytes_ltb v b ≡ false) (same b e) (irreflexive v))
  where
    same : (b : Bytes) → best ≡ some b → v ≡ b
    same b e =
        let both : ◌≡◌ {A = Option Bytes} (some v) (some b) = sym h ∙ e in ground (arith, both)
latest-IsGreatest best (name ∷ names) v h =
    let (below, bounds) =
      latest-IsGreatest (if name == metadata then best else some (newer name best)) names v h in
    at_head (Bool-cases (name == metadata)) below bounds
  where
    at_head :
        ((name == metadata) ≡ true) ⊎ ((name == metadata) ≡ false)
        → IsGreatest v names
        → Bounds (if name == metadata then best else some (newer name best)) v
        → IsGreatest v (name ∷ names) × Bounds best v
    at_head (inl skip) below =
        rw skip (λ bounds. ((inl ((bytes_eq.equals_iff name metadata).0 skip), below), bounds))
    at_head (inr keep) below = rw keep (λ bounds.
        let (rest, here) = newer-Bounds name best v (bounds (newer name best) refl) in
        ((inr here, below), rest))

-- The most recent version is one of the names, and not the metadata.
abbrev pub IsListed : Bytes → List Bytes → Type 0
IsListed v names = Member v names × (v ≢ metadata)

IsListed-cons : (name v : Bytes) (names : List Bytes) → IsListed v names → IsListed v (name ∷ names)
IsListed-cons name v names (there, other) = (inr there, other)

newer-eq-some :
    (name : Bytes) (best : Option Bytes) (v : Bytes)
    → some (newer name best) ≡ some v
    → (name ≡ v) ⊎ (best ≡ some v)
newer-eq-some name none v = λ h. inl (ground (arith, h))
newer-eq-some name (some best) v = elim (Bool-cases (bytes_ltb best name)) [
  | inl above ↦ rw above (λ h. inl (ground (arith, h)))
  | inr below ↦ rw below (λ h. inr h)
]

latest-IsListed :
    (best : Option Bytes) (names : List Bytes) (v : Bytes)
    → latest best names ≡ some v
    → (best ≡ some v) ⊎ IsListed v names
unfolding latest
latest-IsListed best [] v h = inl h
latest-IsListed best (name ∷ names) v h =
    at_head (Bool-cases (name == metadata))
      (latest-IsListed (if name == metadata then best else some (newer name best)) names v h)
  where
    kept :
        (name == metadata) ≡ false
        → (name ≡ v) ⊎ (best ≡ some v)
        → (best ≡ some v) ⊎ IsListed v (name ∷ names)
    kept keep (inl same) = inr (
      inl same,
      λ e. absurd (ground (arith, keep, (bytes_eq.equals_iff name metadata).1 (same ∙ e))),
    )
    kept keep (inr old) = inl old

    at_head :
        ((name == metadata) ≡ true) ⊎ ((name == metadata) ≡ false)
        → ((if name == metadata then best else some (newer name best)) ≡ some v) ⊎ IsListed v names
        → (best ≡ some v) ⊎ IsListed v (name ∷ names)
    at_head _ (inr there) = inr (IsListed-cons name v names there)
    at_head (inl skip) (inl h) =
        inl (subst (λ b. (if b then best else some (newer name best)) ≡ some v) skip h)
    at_head (inr keep) (inl h) = kept keep (
        newer-eq-some name best v
          (subst (λ b. (if b then best else some (newer name best)) ≡ some v) keep h))

none-IsListed : (names : List Bytes) (v : Bytes) → latest none names ≡ some v → IsListed v names
none-IsListed names v h = elim (latest-IsListed none names v h) [
  | inl e ↦ absurd (ground (arith, e))
  | inr there ↦ there
]

module _ (s : System) (root : Bytes) (g : Gcm) where
  -- If the key resolves to a directory of whose names none has a colon, a ciphertext that Encrypt
  -- gives is sealed with a version that is listed there and is not the metadata, and no listed name
  -- but the metadata is greater. The ciphertext names the version first, before a colon, the nonce
  -- and what is sealed.
  pub encrypt-IsGreatest :
      (key path nonce plaintext aad ciphertext : Bytes) (names : List Bytes) (d : Disk)
      → resolve root (join_paths [] key) ≡ ok path
      → read_dir d path ≡ ok names
      → AllLack 58 names
      → encrypt s root g key (inr nonce) plaintext aad d ≡ ok ciphertext
      → (version : Bytes) × (dek : Bytes) × IsListed version names
        × IsGreatest version names
        × IsVersion s root g key version dek d
        × (ciphertext ≡ version ++ 58 ∷ (nonce ++ g.seal dek nonce plaintext aad))
  encrypt-IsGreatest key path nonce plaintext aad ciphertext names d at lists lacks h =
      let (version, dek, newest, text, is_version) =
        encrypt-eq-ok s root g key path nonce plaintext aad ciphertext names d at lists lacks h in
      (
        version,
        dek,
        none-IsListed names version newest,
        (latest-IsGreatest none names version newest).0,
        is_version,
        text,
      )
