-- ===== src/Secrets/Resolver/Outcomes.antt =====
-- secrets/resolver.go: what is left alone, and when a secret is written to a file.
use go_bananas.Base.{
  ℕ, ◌%◌, ◌≡◌, ◌⊎◌, inl, inr, refl, sym, subst, ◌∙◌, Bool, true, false, Option, none, some, List,
  [], ◌∷◌, Bytes, arith, eqb, All, cut_prefix, cut_suffix, split, join-split, Bool-cases,
}
use go_bananas.Secrets.Resolver.{
  Stat, missing, failed, mode, Disk, System, Answer, secret_prefix, file_suffix, created, ensured,
  ensure_secure_dir, written, write_secret, secret_path, store_value, resolve_target, resolve_value,
  resolve, cons_answer, and_then, resolve_all, joined, resolver,
}

abbrev pub IsPlain : Bytes → Type 0
IsPlain v = cut_prefix secret_prefix v ≡ none

resolve_all-plain :
    (s : System) (env : Bytes) (vs : List Bytes) (d : Disk)
    → All IsPlain vs
    → resolve_all s env vs d ≡ (inr vs, d)
unfolding resolve_all resolve
resolve_all-plain s env [] d h = refl
resolve_all-plain s env (v ∷ vs) d (plain, h) = rw (plain, resolve_all-plain s env vs d h) refl

-- A value none of whose comma-separated items is a reference to a secret is returned byte for byte,
-- and nothing is read or written.
pub resolver-plain :
    (s : System) (env value : Bytes) (d : Disk)
    → All IsPlain (split 44 value)
    → resolver s env value d ≡ (inr value, d)
unfolding resolver
resolver-plain s env value d h =
    rw (resolve_all-plain s env (split 44 value) d h, join-split 44 value) refl

abbrev pub IsPrivate : Stat → Type 0
IsPrivate (mode perm) = perm % 64 ≡ 0
IsPrivate _ = ⊥

-- No file is changed, or the directory is accessible to its owner only; and it stays so once it is.
abbrev pub Keeps : Disk → Disk → Type 0
Keeps d d' = ((d'.files ≡ d.files) ⊎ IsPrivate d'.dir) × (IsPrivate d.dir → IsPrivate d'.dir)

same-Keeps : (d : Disk) → Keeps d d
same-Keeps d = (inl refl, λ p. p)

private-Keeps : (d d' : Disk) → IsPrivate d'.dir → Keeps d d'
private-Keeps d d' p = (inr p, λ _. p)

trans-Keeps : (a b c : Disk) → Keeps a b → Keeps b c → Keeps a c
trans-Keeps a b c (inl e, f) (inl e', g) = (inl (e' ∙ e), λ p. g (f p))
trans-Keeps a b c (inr p, f) (inl e', g) = private-Keeps a c (g p)
trans-Keeps a b c (_, f) (inr p, g) = private-Keeps a c p

written-IsPrivate :
    (o : Option ℕ) (path value : Bytes) (d : Disk)
    → IsPrivate d.dir
    → IsPrivate (written o path value d).1.dir
written-IsPrivate none path value d p = p
written-IsPrivate (some e) path value d p = p

write_secret-Keeps :
    (s : System) (path value : Bytes) (d : Disk)
    → Keeps d (write_secret s path value (ensure_secure_dir s d)).1
unfolding ensure_secure_dir
write_secret-Keeps s path value d = go d.dir refl
  where
    create : (o : Option ℕ) → Keeps d (write_secret s path value (created o d)).1
    create none =
        private-Keeps d _
          (written-IsPrivate (s.write_file path) path value (record d { dir = mode 448 }) refl)
    create (some e) = same-Keeps d

    go : (st : Stat) → d.dir ≡ st → Keeps d (write_secret s path value (ensured s st d)).1
    go missing h = create s.mkdir_all
    go (failed e) h = same-Keeps d
    go (mode perm) h = elim (Bool-cases (eqb (perm % 64) 0)) [
      | inl closed ↦ rw closed (
          private-Keeps d _ (
            written-IsPrivate (s.write_file path) path value d
              (subst IsPrivate (sym h) (ground (arith, closed)))))
      | inr open_to_others ↦ rw open_to_others (same-Keeps d)
    ]

store_value-Keeps :
    (s : System) (env ref : Bytes) (to_file : Bool) (d : Disk) (r : ℕ ⊎ Bytes)
    → Keeps d (store_value s env ref to_file d r).1
store_value-Keeps s env ref to_file d (inl e) = same-Keeps d
store_value-Keeps s env ref false d (inr value) = same-Keeps d
store_value-Keeps s env ref true d (inr value) =
    write_secret-Keeps s (secret_path s env ref) value d

resolve-Keeps : (s : System) (env value : Bytes) (d : Disk) → Keeps d (resolve s env value d).1
unfolding resolve
resolve-Keeps s env value d = go (cut_prefix secret_prefix value)
  where
    target : (ref : Bytes) (o : Option Bytes) → Keeps d (resolve_target s env ref d o).1
    target ref none = store_value-Keeps s env ref false d (s.get_secret_value ref)
    target ref (some name) = store_value-Keeps s env name true d (s.get_secret_value name)

    go : (o : Option Bytes) → Keeps d (resolve_value s env value d o).1
    go none = same-Keeps d
    go (some ref) = target ref (cut_suffix file_suffix ref)

cons_answer-disk : (v : Bytes) (a : Answer (List Bytes)) → (cons_answer v a).1 ≡ a.1
cons_answer-disk v (inl e, d) = refl
cons_answer-disk v (inr vs, d) = refl

resolve_all-Keeps :
    (s : System) (env : Bytes) (vs : List Bytes) (d : Disk) → Keeps d (resolve_all s env vs d).1
unfolding resolve_all
resolve_all-Keeps s env [] d = same-Keeps d
resolve_all-Keeps s env (v ∷ vs) d =
    go (resolve_all-Keeps s env vs) (resolve s env v d) (resolve-Keeps s env v d)
  where
    go :
        ((d' : Disk) → Keeps d' (resolve_all s env vs d').1)
        → (a : Answer Bytes) → Keeps d a.1
        → Keeps d (and_then (resolve_all s env vs) a).1
    go rest (inl e, d') h = h
    go rest (inr v, d') h =
        subst (Keeps d) (sym (cons_answer-disk v (resolve_all s env vs d')))
          (trans-Keeps d d' _ h (rest d'))

joined-disk : (a : Answer (List Bytes)) → (joined a).1 ≡ a.1
joined-disk (inl e, d) = refl
joined-disk (inr vs, d) = refl

-- However resolving a value ends, either no file has been changed, or the directory of the secret
-- files is then accessible to its owner only; and resolving never opens a private directory.
pub resolver-Keeps :
    (s : System) (env value : Bytes) (d : Disk) → Keeps d (resolver s env value d).1
unfolding resolver
resolver-Keeps s env value d =
    subst (Keeps d) (sym (joined-disk (resolve_all s env (split 44 value) d)))
      (resolve_all-Keeps s env (split 44 value) d)
