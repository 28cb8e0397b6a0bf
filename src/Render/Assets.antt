-- ===== src/Render/Assets.antt =====
-- render/assets.go: tags for the files of a directory, kept once they are made unless in debug mode.
-- The digest of a file's content and the template of the tags are parameters.
use go_bananas.Base.{ℕ, ◌⊎◌, inl, inr, Bool, List, [], ◌∷◌, ◌++◌, Bytes, codes, if◌then◌else◌}
use go_bananas.Paths.{join_paths}

pub record Asset : Type 0 where
  pub path : Bytes
  pub sri : Bytes
  pub build_id : Bytes

pub data Error : Type 0 where
  not_listed : ℕ → Error
  not_opened : Bytes → ℕ → Error
  not_digested : Bytes → ℕ → Error
  not_rendered : ℕ → Error

-- A file: its name, and what opening and then reading it gives
abbrev pub File : Type 0
File = Bytes × (ℕ ⊎ (ℕ ⊎ Bytes))

module _ (digest : Bytes → Bytes) (execute : List Asset → ℕ ⊎ Bytes) where
  -- generateSRI
  unfoldable pub generate_sri : ℕ ⊎ Bytes → ℕ ⊎ Bytes
  generate_sri (inl e) = inl e
  generate_sri (inr content) = inr (codes "sha512-" ++ digest content)

  abbrev pub asset : Bytes → Bytes → File → Error ⊎ Asset
  asset build_id search (name, inl e) = inl (not_opened name e)
  asset build_id search (name, inr content) = elim (generate_sri content) [
    | inl e ↦ inl (not_digested name e)
    | inr sri ↦ inr (record { path = join_paths search name; sri = sri; build_id = build_id })
  ]

  abbrev pub both : Error ⊎ Asset → Error ⊎ List Asset → Error ⊎ List Asset
  both (inl e) rest = inl e
  both (inr a) (inl e) = inl e
  both (inr a) (inr list) = inr (a ∷ list)

  unfoldable pub assets : Bytes → Bytes → List File → Error ⊎ List Asset
  unfolding generate_sri
  assets build_id search [] = inr []
  assets build_id search (f ∷ files) = both (asset build_id search f) (assets build_id search files)

  abbrev pub rendered : ℕ ⊎ Bytes → Error ⊎ Bytes
  rendered (inl e) = inl (not_rendered e)
  rendered (inr tags) = inr tags

  abbrev pub built : Bytes → Bytes → ℕ ⊎ List File → Error ⊎ Bytes
  built build_id search (inl e) = inl (not_listed e)
  built build_id search (inr files) = elim (assets build_id search files) [
    | inl e ↦ inl e
    | inr list ↦ rendered (execute list)
  ]

  abbrev pub kept : Bytes → Error ⊎ Bytes → (Error ⊎ Bytes) × Bytes
  kept cache (inl e) = (inl e, cache)
  kept cache (inr tags) = (inr tags, tags)

  abbrev pub through_cache : Bytes → Error ⊎ Bytes → (Error ⊎ Bytes) × Bytes
  through_cache [] made = kept [] made
  through_cache (c ∷ cache) made = (inr (c ∷ cache), c ∷ cache)

  -- The function that assetIncludeTag returns, with the cache before and after the call
  unfoldable pub asset_include_tag :
      Bool → Bytes → Bytes → ℕ ⊎ List File → Bytes → (Error ⊎ Bytes) × Bytes
  unfolding assets
  asset_include_tag debug build_id search dir cache =
      if debug
      then (built build_id search dir, cache)
      else through_cache cache (built build_id search dir)
