-- ===== src/Flash/Tests.antt =====
-- Messages added, read and cloned, and the theorems at inputs that meet their hypotheses.
use go_bananas.Base.{
  ℕ, ◌≡◌, refl, sym, ◌∙◌, ◌||◌, some, List, [], ◌∷◌, Bytes, codes, arith, list_beq, nat_eq,
}
use go_bananas.Base.Dict
use go_bananas.Base.Result.{ok}
use go_bananas.Values.{key_eq, key_beq, set_ref}
use go_bananas.Flash.{
  Kind, alert, error, warning, Store, kind_key, kind_name, members, contains, set_insert, add, get,
  sort, bytes_ltb, clone,
}
use go_bananas.Flash.Sets.{IsDistinct, IsSorted}
use go_bananas.Flash.Valid.{IsValid, Keeps, messages, slot, IsSlot}
use go_bananas.Flash.Messages.{adds, shown_once}
use go_bananas.Flash.Clone.{clone_shares}

program : Unit {0}
unfolding kind_name members contains set_insert add get sort bytes_ltb clone messages adds key_beq
    list_beq Dict.lookup Dict.insert Dict.delete
program = tt

abbrev empty : Store
empty = record { values = []; sets = []; next = 0 }

empty-IsValid : IsValid empty
unfolding program
empty-IsValid = record {
  typed = λ k. tt;
  separate = λ j k a e f. absurd (ground arith);
  distinct = λ a. tt;
}

abbrev same_case : Bytes → Bytes
same_case b = b

abbrev two : List Bytes
two = codes "b" ∷ codes "a" ∷ codes "b" ∷ []

-- Added three times, two texts are shown once each and in order.
abbrev filled : Store
filled = record {
  values = (kind_key error, set_ref 0) ∷ [];
  sets = (0, codes "a" ∷ codes "b" ∷ []) ∷ [];
  next = 1;
}

add_get_tests :
    (adds error two empty ≡ ok filled)
    × (get same_case error filled ≡ ok (codes "a" ∷ codes "b" ∷ [], record filled { values = [] }))
unfolding program
add_get_tests = (refl, refl)

shown_once_example :
    (out : List Bytes) × (s' : Store) × (s'' : Store) × (adds error two empty ≡ ok s')
    × (get same_case error s' ≡ ok (out, s''))
    × ((q : Bytes) → contains q out ≡ (contains q two || contains q (messages error empty)))
    × IsDistinct out
    × IsSorted same_case out
    × (get same_case error s'' ≡ ok ([], s''))
    × IsValid s''
    × Keeps error empty s''
shown_once_example = shown_once same_case error two empty empty-IsValid

-- Only errors have a set.
only_error : (k : Kind) (a : ℕ) → slot filled k ≡ some (set_ref a) → k ≡ error
unfolding program
only_error alert a e = absurd (ground arith)
only_error error a e = refl
only_error warning a e = absurd (ground arith)

typed_filled : (k : Kind) → IsSlot 1 (slot filled k)
unfolding program
typed_filled alert = tt
typed_filled error = omega arith
typed_filled warning = tt

filled-IsValid : IsValid filled
unfolding program
filled-IsValid = record {
  typed = typed_filled;
  separate = λ j k a e f. only_error j a e ∙ sym (only_error k a f);
  distinct = λ a. ground arith;
}

clone_shares_example :
    (s' : Store) × (add error (codes "c") filled ≡ ok s')
    × (messages error (record s' { values = clone [] filled.values })
        ≡ set_insert (codes "c") (messages error filled))
unfolding program
clone_shares_example = clone_shares error (codes "c") [] filled filled-IsValid (ground arith)
