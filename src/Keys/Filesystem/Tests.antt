-- ===== src/Keys/Filesystem/Tests.antt =====
-- Keys below a concrete root, with a cipher that only keeps what it is given.
use go_bananas.Base.{
  ℕ, ◌≡◌, inr, refl, Option, none, some, [], ◌∷◌, ◌++◌, Bytes, bytes_eq, codes, ◌==◌, AllLack,
  list_beq, split, join, cut_prefix, cut_suffix, arith, if◌then◌else◌,
}
use go_bananas.Base.Dict
use go_bananas.Base.Result.{ok, err}
use go_bananas.Flash.{bytes_ltb}
use go_bananas.Paths.{render, clean, safe_join, join_paths, rel, walk, step}
use go_bananas.Keys.Filesystem.{
  Disk, System, Gcm, Codec, encryption, signing, not_type, resolve, read_file, read_dir, latest,
  cut_version, make_dirs, encrypt, decrypt, metadata_for_key, create_key, create_key_version,
  destroy_key_version, missing_version, not_found,
}
use go_bananas.Keys.Filesystem.Signing.{
  new_signer, walk_versions, newest_first, signing_key_versions,
}
use go_bananas.Keys.Filesystem.Decrypts.{IsVersion}
use go_bananas.Keys.Filesystem.Greatest.{IsListed, IsGreatest, encrypt-IsGreatest}
use go_bananas.Keys.Filesystem.Rotation.{now, then_version, decrypt-encrypt-Later}
use go_bananas.Keys.Filesystem.Types.{IsCodec, create_key-again}

program : Unit {0}
unfolding render clean safe_join join_paths rel walk step list_beq split join cut_prefix cut_suffix
    Dict.lookup Dict.insert Dict.delete bytes_ltb resolve read_file read_dir latest cut_version
    make_dirs encrypt decrypt metadata_for_key create_key create_key_version destroy_key_version
    new_signer walk_versions newest_first signing_key_versions
program = tt

abbrev fine : Bytes → Option ℕ
fine path = none

abbrev system : System
system = record { mkdir_all = fine; read_file = fine; write_file = fine; remove = fine }

abbrev plain : Bytes → Bytes → Bytes → Bytes → Bytes
plain dek n plaintext aad = plaintext

abbrev open_plain : Bytes → Bytes → Bytes → Bytes → Option Bytes
open_plain dek n sealed aad = some sealed

abbrev gcm : Gcm
gcm = record { new_cipher = fine; nonce_size = 1; seal = plain; open_sealed = open_plain }

abbrev same : Bytes → Bytes
same t = 123 ∷ t

abbrev parse : Bytes → Option Bytes
parse [] = none
parse (c ∷ t) = some t

abbrev codec : Codec
codec = record { marshal = same; unmarshal = parse }

codec-IsCodec : IsCodec codec
codec-IsCodec t = (refl, ground arith)

abbrev empty : Disk
empty = record { dirs = codes "." ∷ []; files = [] }

abbrev keyed : Disk
keyed = record {
  dirs = codes "r/p/k" ∷ codes "r/p" ∷ codes "r" ∷ codes "." ∷ [];
  files = (codes "r/p/k/metadata", same encryption) ∷ [];
}

-- Two versions of the key
abbrev versioned : Disk
versioned = record {
  dirs = keyed.dirs;
  files =
      (codes "r/p/k/metadata", same encryption)
      ∷ (codes "r/p/k/1", codes "A")
      ∷ (codes "r/p/k/2", codes "B")
      ∷ [];
}

create_tests :
    (create_key system (codes "r") codec (codes "p") (codes "k") encryption empty
      ≡ (ok (codes "/p/k"), keyed))
    × (create_key_version system
          (codes "r")
          codec
          (codes "/p/k")
          (inr (codes "S"))
          (inr (codes "A"))
          (codes "1")
          keyed
        ≡ (
          ok (codes "/p/k/1"),
          record keyed {
            files = (codes "r/p/k/metadata", same encryption) ∷ (codes "r/p/k/1", codes "A") ∷ [];
          },
        ))
unfolding program
create_tests = (refl, refl)

abbrev ciphertext : Bytes
ciphertext = codes "2:nhello"

crypt_tests :
    (encrypt system (codes "r") gcm (codes "/p/k") (inr (codes "n")) (codes "hello") [] versioned
      ≡ ok ciphertext)
    × (decrypt system (codes "r") gcm (codes "/p/k") ciphertext [] versioned ≡ ok (codes "hello"))
    × (decrypt system (codes "r") gcm (codes "/p/k") (codes "hello") [] versioned
        ≡ err missing_version)
    × (decrypt system
          (codes "r")
          gcm
          (codes "/p/k")
          ciphertext
          []
          (destroy_key_version system (codes "r") (codes "/p/k/2") versioned).1
        ≡ err not_found)
unfolding program
crypt_tests = (refl, refl, refl, refl)

-- With the parent "/../k" the metadata is that of the key "k" below the root, and the version is
-- written outside of the root.
outside_test :
    create_key_version system
      (codes "r")
      codec
      (codes "/../k")
      (inr [])
      (inr (codes "A"))
      (codes "1")
      (record { dirs = []; files = (codes "r/k/metadata", same encryption) ∷ [] })
    ≡ (
      ok (codes "k/1"),
      record {
        dirs = [];
        files = (codes "r/k/metadata", same encryption) ∷ (codes "k/1", codes "A") ∷ [];
      },
    )
unfolding program
outside_test = refl

abbrev signing_disk : Disk
signing_disk = record {
  dirs = codes "r/s" ∷ [];
  files =
      (codes "r/s/metadata", same signing)
      ∷ (codes "r/s/1", codes "-A")
      ∷ (codes "r/s/2", codes "-B")
      ∷ [];
}

signing_tests :
    (signing_key_versions system (codes "r") parse codec (codes "s") signing_disk
      ≡ ok ((codes "/s/2", codes "B") ∷ (codes "/s/1", codes "A") ∷ []))
    × (signing_key_versions system (codes "r") parse codec (codes "/p/k") versioned
        ≡ err (not_type signing))
    × (new_signer system (codes "r") parse (codes "/s/1") signing_disk ≡ ok (codes "A"))
unfolding program
signing_tests = (refl, refl, refl)

abbrev later_disk : Disk
later_disk =
    (create_key_version system (codes "r") codec (codes "/p/k") (inr []) (inr (codes "C"))
      (codes "3") versioned).1

unused :
    Dict.lookup (join_paths (join_paths (codes "r") (codes "/p/k")) (codes "3")) versioned.files
    ≡ none
unfolding program
unused = refl

resolves : resolve (codes "r") (join_paths [] (codes "/p/k")) ≡ ok (codes "r/p/k")
unfolding program
resolves = refl

lists : read_dir versioned (codes "r/p/k") ≡ ok (codes "metadata" ∷ codes "1" ∷ codes "2" ∷ [])
unfolding program
lists = refl

lacks : AllLack 58 (codes "metadata" ∷ codes "1" ∷ codes "2" ∷ [])
lacks = ground arith

encrypts :
    encrypt system (codes "r") gcm (codes "/p/k") (inr (codes "n")) (codes "hello") [] versioned
    ≡ ok ciphertext
unfolding program
encrypts = refl

decrypt-encrypt-Later_example :
    decrypt system (codes "r") gcm (codes "/p/k") ciphertext [] later_disk ≡ ok (codes "hello")
decrypt-encrypt-Later_example =
    decrypt-encrypt-Later system (codes "r") codec gcm (codes "/p/k") (codes "r/p/k") (codes "n")
      (codes "hello") [] ciphertext (codes "metadata" ∷ codes "1" ∷ codes "2" ∷ []) versioned
      later_disk (λ dek n plaintext aad size. refl) refl resolves lists lacks encrypts
      (then_version now (codes "/p/k") (codes "3") (inr []) (inr (codes "C")) unused refl)

encrypt-IsGreatest_example :
    (version : Bytes) × (dek : Bytes) × IsListed version
      (codes "metadata" ∷ codes "1" ∷ codes "2" ∷ [])
    × IsGreatest version (codes "metadata" ∷ codes "1" ∷ codes "2" ∷ [])
    × IsVersion system (codes "r") gcm (codes "/p/k") version dek versioned
    × (ciphertext ≡ version ++ 58 ∷ (codes "n" ++ gcm.seal dek (codes "n") (codes "hello") []))
encrypt-IsGreatest_example =
    encrypt-IsGreatest system (codes "r") gcm (codes "/p/k") (codes "r/p/k") (codes "n")
      (codes "hello") [] ciphertext (codes "metadata" ∷ codes "1" ∷ codes "2" ∷ []) versioned
      resolves lists lacks encrypts

created :
    create_key system (codes "r") codec (codes "p") (codes "k") encryption empty
    ≡ (ok (codes "/p/k"), keyed)
unfolding program
created = refl

create_key-again_example :
    ((create_key system (codes "r") codec (codes "p") (codes "k") signing keyed).0
      ≡ (if encryption == signing then ok (codes "/p/k") else err (not_type signing)))
    × ((create_key system (codes "r") codec (codes "p") (codes "k") signing keyed).1.files
        ≡ keyed.files)
create_key-again_example =
    create_key-again system (codes "r") codec (codes "p") (codes "k") encryption signing
      (codes "/p/k") empty keyed codec-IsCodec created
