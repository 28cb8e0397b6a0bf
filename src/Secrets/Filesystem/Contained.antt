-- ===== src/Secrets/Filesystem/Contained.antt =====
-- secrets/filesystem.go: only files below the root are read, written or removed.
use go_bananas.Base.{
  ℕ, ◌≡◌, ◌≢◌, ◌⊎◌, inl, inr, refl, sym, subst, Option, none, some, Bytes, bytes_eq, ◌==◌, arith,
  Bool-cases,
}
use go_bananas.Base.Dict
use go_bananas.Base.Dict.{lookup-insert, lookup-delete}
use go_bananas.Paths
use go_bananas.Paths.{dots, clean, base_of, safe_join, join_paths}
use go_bananas.Paths.Clean.{IsProper}
use go_bananas.Paths.Within.{IsWithin, safe_join-eq-inr}
use go_bananas.Paths.Extend.{IsPrinted, join_paths-IsPrinted, join_paths-IsWithin}
use go_bananas.Secrets.Filesystem.{
  Files, Error, System, read_file, read_at, get_secret_value, written, made, create_in,
  create_secret_version, removed, destroy_at, destroy_secret_version,
}

-- A file of the root: its path, as cleaned, lies at or below the cleaned root.
abbrev pub IsInside : Bytes → Bytes → Type 0
IsInside root path = IsWithin (clean (base_of root)) (clean path)

-- Every file outside the root is as it was.
abbrev pub Spares : Bytes → Files → Files → Type 0
Spares root fs fs' =
    (path : Bytes) → (Dict.lookup path fs' ≡ Dict.lookup path fs) ⊎ IsInside root path

insert-Spares :
    (root path content : Bytes) (fs : Files)
    → IsInside root path
    → Spares root fs (Dict.insert path content fs)
insert-Spares root path content fs inside q = elim (Bool-cases (path == q)) [
  | inl same ↦ inr (subst (IsInside root) ((bytes_eq.equals_iff path q).0 same) inside)
  | inr other ↦ inl (ground (arith, other, lookup-insert path q content fs))
]

delete-Spares :
    (root path : Bytes) (fs : Files) → IsInside root path → Spares root fs (Dict.delete path fs)
delete-Spares root path fs inside q = elim (Bool-cases (path == q)) [
  | inl same ↦ inr (subst (IsInside root) ((bytes_eq.equals_iff path q).0 same) inside)
  | inr other ↦ inl (ground (arith, other, lookup-delete path q fs))
]

create-Spares :
    (s : System) (root parent content stamp : Bytes) (fs : Files)
    → IsProper stamp
    → stamp ≢ dots
    → Spares root fs (create_secret_version s root parent content stamp fs).1
unfolding create_secret_version
create-Spares s root parent content stamp fs ps name = go (safe_join root parent) refl
  where
    write :
        (dir : Bytes)
        → IsInside root (join_paths dir stamp)
        → (o : Option ℕ) → Spares root fs (written root (join_paths dir stamp) content fs o).1
    write dir inside (some e) = λ q. inl refl
    write dir inside none = insert-Spares root (join_paths dir stamp) content fs inside

    make :
        (dir : Bytes)
        → IsInside root (join_paths dir stamp)
        → (o : Option ℕ) → Spares root fs (made s root dir stamp content fs o).1
    make dir inside (some e) = λ q. inl refl
    make dir inside none = write dir inside (s.write_file (join_paths dir stamp))

    go :
        (r : Paths.Error ⊎ Bytes)
        → safe_join root parent ≡ r
        → Spares root fs (create_in s root stamp content fs r).1
    go (inl e) h = λ q. inl refl
    go (inr dir) h =
        let (joined, inside) = safe_join-eq-inr root parent dir h in
        make dir
          (join_paths-IsWithin (clean (base_of root)) dir stamp
            (subst IsPrinted (sym joined) (join_paths-IsPrinted root parent)) ps name inside)
          (s.mkdir_all dir)

destroy-Spares :
    (s : System) (root name : Bytes) (fs : Files)
    → Spares root fs (destroy_secret_version s root name fs).1
unfolding destroy_secret_version
destroy-Spares s root name fs = go (safe_join root name) refl
  where
    remove :
        (path : Bytes) → IsInside root path → (o : Option ℕ) → Spares root fs (removed path fs o).1
    remove path inside (some e) = λ q. inl refl
    remove path inside none = delete-Spares root path fs inside

    go : (r : Paths.Error ⊎ Bytes) → safe_join root name ≡ r → Spares root fs (destroy_at s fs r).1
    go (inl e) h = λ q. inl refl
    go (inr path) h = remove path (safe_join-eq-inr root name path h).1 (s.remove path)

get-IsInside :
    (root name b : Bytes) (fs : Files)
    → get_secret_value root name fs ≡ inr b
    → (path : Bytes) × IsInside root path × (Dict.lookup path fs ≡ some b)
unfolding get_secret_value
get-IsInside root name b fs h = go (safe_join root name) refl h
  where
    found : (o : Option Bytes) → read_file o ≡ inr b → o ≡ some b
    found none k = absurd (ground arith)
    found (some c) k = ground (arith, k)

    go :
        (r : Paths.Error ⊎ Bytes)
        → safe_join root name ≡ r
        → read_at fs r ≡ inr b
        → (path : Bytes) × IsInside root path × (Dict.lookup path fs ≡ some b)
    go (inl e) joined k = absurd (ground arith)
    go (inr path) joined k =
        (path, (safe_join-eq-inr root name path joined).1, found (Dict.lookup path fs) k)

-- Whatever names a caller passes: creating and destroying a version leave every file outside the
-- root as it was, and each secret that can be read is the content of a file inside it. A stamp is a
-- proper file name.
pub filesystem-Spares :
    (s : System) (root name content stamp : Bytes) (fs : Files)
    → IsProper stamp
    → stamp ≢ dots
    → Spares root fs (create_secret_version s root name content stamp fs).1
      × Spares root fs (destroy_secret_version s root name fs).1
      × (((e : Error) × (get_secret_value root name fs ≡ inl e))
          ⊎ ((b : Bytes) × (get_secret_value root name fs ≡ inr b)
              × ((path : Bytes) × IsInside root path × (Dict.lookup path fs ≡ some b))))
filesystem-Spares s root name content stamp fs ps apart = (
  create-Spares s root name content stamp fs ps apart,
  destroy-Spares s root name fs,
  read (get_secret_value root name fs) refl,
)
  where
    read :
        (r : Error ⊎ Bytes)
        → get_secret_value root name fs ≡ r
        → ((e : Error) × (r ≡ inl e))
          ⊎ ((b : Bytes) × (r ≡ inr b)
              × ((path : Bytes) × IsInside root path × (Dict.lookup path fs ≡ some b)))
    read (inl e) h = inl (e, refl)
    read (inr b) h = inr (b, refl, get-IsInside root name b fs h)
