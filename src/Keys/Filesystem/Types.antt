-- ===== src/Keys/Filesystem/Types.antt =====
-- keys/filesystem.go: a key keeps its type.
use go_bananas.Base.{
  ℕ, ◌≡◌, ◌≢◌, ◌⊎◌, inl, inr, refl, sym, ap, subst, ◌∙◌, Bool, true, false, Option, none, some, [],
  ◌∷◌, Bytes, bytes_eq, ◌==◌, arith, if◌then◌else◌, Bool-cases,
}
use go_bananas.Base.Dict
use go_bananas.Base.Dict.{lookup-insert}
use go_bananas.Base.Result.{Result, ok, err}
use go_bananas.Paths
use go_bananas.Paths.{safe_join, join_paths}
use go_bananas.Secrets.Filesystem.{trim_prefix}
use go_bananas.Keys.Filesystem.{
  Disk, System, Codec, Error, metadata, not_type, make_dirs, write_new, parsed, with_metadata,
  read_metadata, in_directory, create_at, create_key,
}

-- The text of a key type is not empty, and parses to the key type.
abbrev pub IsCodec : Codec → Type 0
IsCodec j = (t : Bytes) → (j.unmarshal (j.marshal t) ≡ some t) × (j.marshal t ≢ [])

module _ (s : System) (root : Bytes) (j : Codec) where
  -- The metadata file of a key says its type.
  abbrev pub HasType : Bytes → Bytes → Disk → Type 0
  HasType path t d =
      (b : Bytes) × (Dict.lookup (join_paths path metadata) d.files ≡ some b)
      × (b ≢ [])
      × (j.unmarshal b ≡ some t)

  written-HasType :
      (path t id : Bytes) (d d' : Disk) (o : Option ℕ)
      → IsCodec j
      → write_new s root j path (join_paths path metadata) (j.marshal t) d o ≡ (ok id, d')
      → (id ≡ trim_prefix root path) × HasType path t d'
  written-HasType path t id d d' (some e) law h = absurd (ground (arith, h))
  written-HasType path t id d d' none law h =
      let same : record d { files = Dict.insert (join_paths path metadata) (j.marshal t) d.files }
          ≡ d' =
        cc in
      let ids : trim_prefix root path ≡ id = ground (arith, h) in
      (
        sym ids,
        (
          j.marshal t,
          ap (λ d. Dict.lookup (join_paths path metadata) d.files) (sym same)
              ∙ lookup-insert (join_paths path metadata) (join_paths path metadata) (j.marshal t)
                  d.files
              ∙ (rw
                  ((bytes_eq.equals_iff (join_paths path metadata) (join_paths path metadata)).1
                    refl)
                  refl),
          (law t).1,
          (law t).0,
        ),
      )

  parsed-HasType :
      (path t id b : Bytes) (d d' : Disk) (o : Option Bytes)
      → Dict.lookup (join_paths path metadata) d.files ≡ some b
      → b ≢ []
      → j.unmarshal b ≡ o
      → parsed s root j path t d o ≡ (ok id, d')
      → (id ≡ trim_prefix root path) × HasType path t d'
  parsed-HasType path t id b d d' none found full is h = absurd (ground (arith, h))
  parsed-HasType path t id b d d' (some u) found full is h = go (Bool-cases (u == t))
    where
      go : ((u == t) ≡ true) ⊎ ((u == t) ≡ false) → (id ≡ trim_prefix root path) × HasType path t d'
      go (inr other) = absurd (ground (arith, h, other))
      go (inl same) =
          let e : ◌≡◌ {A = Result Error Bytes × Disk} (ok (trim_prefix root path), d) (ok id, d') =
            sym (rw same refl) ∙ h in
          let e_disk : d ≡ d' = ap (λ p. p.1) e in
          let e_id = ap (λ p. p.0) e in
          (
            ground (arith, e_id),
            subst (HasType path t) e_disk
                (b, found, full, is ∙ ap some ((bytes_eq.equals_iff u t).0 same)),
          )

  with_metadata-HasType :
      (path t id : Bytes) (d d' : Disk) (o : Option Bytes)
      → IsCodec j
      → Dict.lookup (join_paths path metadata) d.files ≡ o
      → with_metadata s root j path t d o ≡ (ok id, d')
      → (id ≡ trim_prefix root path) × HasType path t d'
  with_metadata-HasType path t id d d' none law found h = written-HasType path t id d d' _ law h
  with_metadata-HasType path t id d d' (some []) law found h =
      written-HasType path t id d d' _ law h
  with_metadata-HasType path t id d d' (some (c ∷ b)) law found h =
      parsed-HasType path t id (c ∷ b) d d' (j.unmarshal (c ∷ b)) found (ground arith) refl h

  -- What a key that was created is on the disk
  abbrev IsCreated : Bytes → Bytes → Bytes → Bytes → Disk → Type 0
  IsCreated parent name t id d =
      (path : Bytes) × (safe_join root (join_paths parent name) ≡ inr path)
      × (s.mkdir_all path ≡ none)
      × (s.read_file (join_paths path metadata) ≡ none)
      × (id ≡ trim_prefix root path)
      × HasType path t d

  create_key-IsCreated :
      (parent name t id : Bytes) (d d' : Disk)
      → IsCodec j
      → create_key s root j parent name t d ≡ (ok id, d')
      → IsCreated parent name t id d'
  unfolding create_key
  create_key-IsCreated parent name t id d d' law h =
      go (safe_join root (join_paths parent name)) refl h
    where
      read :
          (path : Bytes) (o : Option ℕ)
          → safe_join root (join_paths parent name) ≡ inr path
          → s.mkdir_all path ≡ none
          → s.read_file (join_paths path metadata) ≡ o
          → read_metadata s root j path t (make_dirs path d) o ≡ (ok id, d')
          → IsCreated parent name t id d'
      read path (some e) at makes reads k = absurd (ground (arith, k))
      read path none at makes reads k =
          let (ids, typed) = with_metadata-HasType path t id (make_dirs path d) d' _ law refl k in
          (path, at, makes, reads, ids, typed)

      make :
          (path : Bytes) (o : Option ℕ)
          → safe_join root (join_paths parent name) ≡ inr path
          → s.mkdir_all path ≡ o
          → in_directory s root j path t d o ≡ (ok id, d')
          → IsCreated parent name t id d'
      make path (some e) at makes k = absurd (ground (arith, k))
      make path none at makes k = read path _ at makes refl k

      go :
          (r : Paths.Error ⊎ Bytes)
          → safe_join root (join_paths parent name) ≡ r
          → create_at s root j t d r ≡ (ok id, d')
          → IsCreated parent name t id d'
      go (inl e) at k = absurd (ground (arith, k))
      go (inr path) at k = make path _ at refl k

  typed_again :
      (path t u b : Bytes) (d : Disk)
      → b ≢ []
      → j.unmarshal b ≡ some t
      → with_metadata s root j path u d (some b)
        ≡ ((if t == u then ok (trim_prefix root path) else err (not_type u)), d)
  typed_again path t u [] d full is = absurd (full refl)
  typed_again path t u (c ∷ b) d full is = rw is (branches (t == u))
    where
      branches :
          (same : Bool)
          → ◌≡◌ {A = Result Error Bytes × Disk}
              (if same then (ok (trim_prefix root path), d) else (err (not_type u), d))
              ((if same then ok (trim_prefix root path) else err (not_type u)), d)
      branches true = refl
      branches false = refl

  -- Once a key is created, creating it again changes no file: it gives the same id for the same key
  -- type, and an error for any other. The text of a key type is not empty, and parses to it.
  pub create_key-again :
      (parent name t u id : Bytes) (d d' : Disk)
      → IsCodec j
      → create_key s root j parent name t d ≡ (ok id, d')
      → ((create_key s root j parent name u d').0 ≡ (if t == u then ok id else err (not_type u)))
        × ((create_key s root j parent name u d').1.files ≡ d'.files)
  unfolding create_key make_dirs
  create_key-again parent name t u id d d' law h =
      go (create_key-IsCreated parent name t id d d' law h)
    where
      go :
          IsCreated parent name t id d'
          → ((create_key s root j parent name u d').0
              ≡ (if t == u then ok id else err (not_type u)))
            × ((create_key s root j parent name u d').1.files ≡ d'.files)
      go created =
          let (path, at, makes, reads, ids, (b, found, full, is)) = created in
          (rw (at, makes, reads, found, typed_again path t u b (make_dirs path d') full is, ids)
            (refl, refl))
