-- ===== src/Flash/Sets.antt =====
-- flash/flash.go: the set of messages, and the order that get returns.
use go_bananas.Base.{
  ◌≡◌, refl, true, false, ◌||◌, List, [], ◌∷◌, Bytes, bytes_eq, ◌==◌, arith, All, Bool-cases, inl,
  inr,
}
use go_bananas.Flash.{contains, set_insert, bytes_ltb, less, sort_insert, sort}

-- No message twice.
abbrev pub IsDistinct : List Bytes → Type 0
IsDistinct [] = Unit
IsDistinct (x ∷ xs) = (contains x xs ≡ false) × IsDistinct xs

pub set_insert-IsDistinct :
    (m : Bytes) (xs : List Bytes) → IsDistinct xs → IsDistinct (set_insert m xs)
unfolding set_insert
set_insert-IsDistinct m xs h = ground arith

pub contains-set_insert :
    (q m : Bytes) (xs : List Bytes) → contains q (set_insert m xs) ≡ (m == q || contains q xs)
unfolding set_insert contains
contains-set_insert q m xs = ground (arith, bytes_eq.equals_iff m q)

pub bytes_ltb_trans :
    (a b c : Bytes) → bytes_ltb b a ≡ false → bytes_ltb c b ≡ false → bytes_ltb c a ≡ false
unfolding bytes_ltb
bytes_ltb_trans [] [] [] h k = refl
bytes_ltb_trans [] [] (z ∷ c) h k = refl
bytes_ltb_trans [] (y ∷ b) [] h k = refl
bytes_ltb_trans [] (y ∷ b) (z ∷ c) h k = refl
bytes_ltb_trans (x ∷ a) [] c h k = absurd (ground arith)
bytes_ltb_trans (x ∷ a) (y ∷ b) [] h k = absurd (ground arith)
bytes_ltb_trans (x ∷ a) (y ∷ b) (z ∷ c) h k = ground (arith, bytes_ltb_trans a b c)

pub bytes_ltb_asymm : (a b : Bytes) → bytes_ltb a b ≡ true → bytes_ltb b a ≡ false
unfolding bytes_ltb
bytes_ltb_asymm a [] h = absurd (ground arith)
bytes_ltb_asymm [] (y ∷ b) h = refl
bytes_ltb_asymm (x ∷ a) (y ∷ b) h = ground (arith, bytes_ltb_asymm a b)

module _ (lower : Bytes → Bytes) where
  -- No message stands before one that is less than it, the case of letters aside.
  abbrev pub IsSorted : List Bytes → Type 0
  IsSorted [] = Unit
  IsSorted (x ∷ xs) = All (λ y. less lower y x ≡ false) xs × IsSorted xs

  contains-sort_insert :
      (q x : Bytes) (xs : List Bytes)
      → contains q (sort_insert lower x xs) ≡ (x == q || contains q xs)
  unfolding sort_insert contains
  contains-sort_insert q x [] = refl
  contains-sort_insert q x (y ∷ ys) = ground (arith, contains-sort_insert q x ys)

  pub contains-sort : (q : Bytes) (xs : List Bytes) → contains q (sort lower xs) ≡ contains q xs
  unfolding sort contains
  contains-sort q [] = refl
  contains-sort q (x ∷ xs) =
      ground (arith, contains-sort_insert q x (sort lower xs), contains-sort q xs)

  sort_insert-IsDistinct :
      (x : Bytes) (xs : List Bytes)
      → contains x xs ≡ false
      → IsDistinct xs
      → IsDistinct (sort_insert lower x xs)
  unfolding sort_insert contains
  sort_insert-IsDistinct x [] h d = (refl, tt)
  sort_insert-IsDistinct x (y ∷ ys) h d = ground (
    arith,
    contains-sort_insert y x ys,
    sort_insert-IsDistinct x ys,
    bytes_eq.equals_iff x y,
    bytes_eq.equals_iff y x,
  )

  pub sort-IsDistinct : (xs : List Bytes) → IsDistinct xs → IsDistinct (sort lower xs)
  unfolding sort
  sort-IsDistinct [] d = tt
  sort-IsDistinct (x ∷ xs) d =
      ground
        (arith, contains-sort x xs, sort_insert-IsDistinct x (sort lower xs), sort-IsDistinct xs)

  sort_insert-All :
      (z x : Bytes) (xs : List Bytes)
      → less lower x z ≡ false
      → All (λ y. less lower y z ≡ false) xs
      → All (λ y. less lower y z ≡ false) (sort_insert lower x xs)
  unfolding sort_insert
  sort_insert-All z x [] h k = (h, tt)
  sort_insert-All z x (y ∷ ys) h k = elim (Bool-cases (less lower y x)) [
    | inl e ↦ rw e (k.0, sort_insert-All z x ys h k.1)
    | inr e ↦ rw e (h, k)
  ]

  All-less :
      (x y : Bytes) (xs : List Bytes)
      → less lower y x ≡ false
      → All (λ z. less lower z y ≡ false) xs
      → All (λ z. less lower z x ≡ false) xs
  All-less x y [] h k = tt
  All-less x y (z ∷ zs) h k =
      (bytes_ltb_trans (lower x) (lower y) (lower z) h k.0, All-less x y zs h k.1)

  sort_insert-IsSorted :
      (x : Bytes) (xs : List Bytes) → IsSorted xs → IsSorted (sort_insert lower x xs)
  unfolding sort_insert
  sort_insert-IsSorted x [] s = (tt, tt)
  sort_insert-IsSorted x (y ∷ ys) (h, s) = elim (Bool-cases (less lower y x)) [
    | inl e ↦ rw e (
      sort_insert-All y x ys (bytes_ltb_asymm (lower y) (lower x) e) h,
      sort_insert-IsSorted x ys s,
    )
    | inr e ↦ rw e ((e, All-less x y ys e h), (h, s))
  ]

  pub sort-IsSorted : (xs : List Bytes) → IsSorted (sort lower xs)
  unfolding sort
  sort-IsSorted [] = tt
  sort-IsSorted (x ∷ xs) = sort_insert-IsSorted x (sort lower xs) (sort-IsSorted xs)
