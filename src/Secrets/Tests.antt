-- ===== src/Secrets/Tests.antt =====
-- Resolving and registering concrete secrets.
use go_bananas.Base.{
  ℕ, ◌≡◌, ◌⊎◌, inr, refl, Option, none, [], ◌∷◌, ◌++◌, Bytes, bytes_eq, codes, cut_prefix,
  cut_suffix, split, join,
}
use go_bananas.Base.Dict
use go_bananas.Secrets.Resolver.{
  Disk, missing, mode, System, resolver, resolve, resolve_all, secret_path, ensure_secure_dir,
}
use go_bananas.Secrets.Resolver.Outcomes.{Keeps, resolver-plain, resolver-Keeps}

abbrev reverse_value : Bytes → ℕ ⊎ Bytes
reverse_value ref = inr (ref ++ codes "!")

abbrev no_error : Bytes → Option ℕ
no_error path = none

abbrev under_s : Bytes → Bytes
under_s name = codes "/s/" ++ name

abbrev itself : Bytes → Bytes
itself name = name

abbrev system : System
system = record {
  get_secret_value = reverse_value;
  mkdir_all = none;
  write_file = no_error;
  file_name = itself;
  path_join = under_s;
}

abbrev disk : Disk
disk = record { dir = missing; files = [] }

-- One item is resolved, one is written to a file in a directory that is made, one is left alone.
resolver_test : resolver system (codes "E") (codes "secret://a,secret://b?target=file,c") disk ≡ (
  inr (codes "a!,/s/E.b,c"),
  record { dir = mode 448; files = (codes "/s/E.b", codes "b!") ∷ [] },
)
unfolding resolver resolve resolve_all cut_prefix cut_suffix split secret_path ensure_secure_dir
    Dict.insert join
resolver_test = refl

resolver-plain_example : resolver system (codes "E") (codes "a,b") disk ≡ (inr (codes "a,b"), disk)
unfolding cut_prefix split
resolver-plain_example = resolver-plain system (codes "E") (codes "a,b") disk (refl, (refl, tt))

resolver-Keeps_example :
    Keeps disk (resolver system (codes "E") (codes "secret://b?target=file") disk).1
resolver-Keeps_example = resolver-Keeps system (codes "E") (codes "secret://b?target=file") disk
