-- ===== src/Secrets/Filesystem.antt =====
-- secrets/filesystem.go: secrets as files below a root. A file is known by its cleaned path; the
-- errors of the file system are parameters, and `stamp` is the decimal of time.Now().UnixNano().
pub mod Contained
pub mod RoundTrip
mod Tests
use go_bananas.Base.{
  ℕ, Option, none, some, List, [], ◌∷◌, Bytes, bytes_eq, codes, cut_prefix, ◌⊎◌, inl, inr,
}
use go_bananas.Base.Dict
use go_bananas.Base.Dict.{Dict}
use go_bananas.Paths
use go_bananas.Paths.{safe_join, join_paths}

abbrev pub Files : Type 0
Files = Dict Bytes Bytes

pub data Error : Type 0 where
  bad_path : Paths.Error → Error
  not_read : Error
  not_created : ℕ → Error
  not_written : ℕ → Error
  not_removed : ℕ → Error

-- What os.MkdirAll, os.WriteFile and os.Remove of a path report besides a missing file.
pub record System : Type 0 where
  pub mkdir_all : Bytes → Option ℕ
  pub write_file : Bytes → Option ℕ
  pub remove : Bytes → Option ℕ

abbrev pub read_file : Option Bytes → Error ⊎ Bytes
read_file none = inl not_read
read_file (some b) = inr b

abbrev pub read_at : Files → Paths.Error ⊎ Bytes → Error ⊎ Bytes
read_at fs (inl e) = inl (bad_path e)
read_at fs (inr path) = read_file (Dict.lookup path fs)

-- Filesystem.GetSecretValue
unfoldable pub get_secret_value : Bytes → Bytes → Files → Error ⊎ Bytes
get_secret_value root name fs = read_at fs (safe_join root name)

abbrev pub rest_or : Bytes → Option Bytes → Bytes
rest_or s none = s
rest_or s (some rest) = rest

-- strings.TrimPrefix
abbrev pub trim_prefix : Bytes → Bytes → Bytes
trim_prefix p s = rest_or s (cut_prefix p s)

abbrev pub written : Bytes → Bytes → Bytes → Files → Option ℕ → (Error ⊎ Bytes) × Files
written root path content fs (some e) = (inl (not_written e), fs)
written root path content fs none =
    (inr (trim_prefix (codes "/") (trim_prefix root path)), Dict.insert path content fs)

abbrev pub made :
    System → Bytes → Bytes → Bytes → Bytes → Files → Option ℕ → (Error ⊎ Bytes) × Files
made s root dir stamp content fs (some e) = (inl (not_created e), fs)
made s root dir stamp content fs none =
    written root (join_paths dir stamp) content fs (s.write_file (join_paths dir stamp))

abbrev pub create_in :
    System → Bytes → Bytes → Bytes → Files → Paths.Error ⊎ Bytes → (Error ⊎ Bytes) × Files
create_in s root stamp content fs (inl e) = (inl (bad_path e), fs)
create_in s root stamp content fs (inr dir) = made s root dir stamp content fs (s.mkdir_all dir)

-- Filesystem.CreateSecretVersion
unfoldable pub create_secret_version :
    System → Bytes → Bytes → Bytes → Bytes → Files → (Error ⊎ Bytes) × Files
create_secret_version s root parent content stamp fs =
    create_in s root stamp content fs (safe_join root parent)

abbrev pub removed : Bytes → Files → Option ℕ → Option Error × Files
removed path fs (some e) = (some (not_removed e), fs)
removed path fs none = (none, Dict.delete path fs)

abbrev pub destroy_at : System → Files → Paths.Error ⊎ Bytes → Option Error × Files
destroy_at s fs (inl e) = (some (bad_path e), fs)
destroy_at s fs (inr path) = removed path fs (s.remove path)

-- Filesystem.DestroySecretVersion
unfoldable pub destroy_secret_version : System → Bytes → Bytes → Files → Option Error × Files
destroy_secret_version s root name fs = destroy_at s fs (safe_join root name)
