-- ===== src/Flash/Valid.antt =====
-- flash/flash.go: the well-formed stores, and what add and get do to the messages of each kind.
use go_bananas.Base.{
  ℕ, ◌+◌, ◌<◌, ◌≡◌, refl, ◌⊎◌, list_beq, Bool, true, false, Option, none, some, List, [], Bytes,
  bytes_eq, ◌==◌, nat_eq, arith, if◌then◌else◌, inl, inr,
}
use go_bananas.Base.Dict
use go_bananas.Base.Dict.{lookup-insert, lookup-delete}
use go_bananas.Values.{session_key, Value, set_ref, byte_slice, int64, str, opaque, key_eq, key_beq}
use go_bananas.Flash.{
  Kind, alert, error, warning, kind_name, kind_key, Store, members, make_set, set_insert,
}
use go_bananas.Flash.Sets.{IsDistinct, set_insert-IsDistinct}

abbrev pub kind_beq : Kind → Kind → Bool
kind_beq alert alert = true
kind_beq error error = true
kind_beq warning warning = true
kind_beq _ _ = false

pub kind_key-beq : (j k : Kind) → (kind_key j == kind_key k) ≡ kind_beq j k
unfolding kind_name key_beq list_beq
kind_key-beq alert alert = refl
kind_key-beq alert error = refl
kind_key-beq alert warning = refl
kind_key-beq error alert = refl
kind_key-beq error error = refl
kind_key-beq error warning = refl
kind_key-beq warning alert = refl
kind_key-beq warning error = refl
kind_key-beq warning warning = refl

kind_beq→eq : (j k : Kind) → kind_beq j k ≡ true → j ≡ k
kind_beq→eq j k h = ground arith

-- A slot of the map holds nothing, or a reference to an allocated set.
abbrev pub IsSlot : ℕ → Option Value → Type 0
IsSlot n none = Unit
IsSlot n (some (set_ref a)) = a < n
IsSlot n (some v) = ⊥

abbrev pub slot : Store → Kind → Option Value
slot s k = Dict.lookup (kind_key k) s.values

-- What New makes, and the middleware keeps: each kind has a set of its own, or none.
pub record IsValid (s : Store) : Type 0 where
  pub typed : (k : Kind) → IsSlot s.next (slot s k)
  pub separate :
      (j k : Kind) (a : ℕ) → slot s j ≡ some (set_ref a) → slot s k ≡ some (set_ref a) → j ≡ k
  pub distinct : (a : ℕ) → IsDistinct (members s a)

-- The messages of a kind that wait to be shown.
abbrev pub of_slot : Store → Option Value → List Bytes
of_slot s (some (set_ref a)) = members s a
of_slot s _ = []

unfoldable pub messages : Kind → Store → List Bytes
messages k s = of_slot s (slot s k)

pub slot_cases :
    (n : ℕ) (o : Option Value)
    → IsSlot n o
    → (o ≡ none) ⊎ ((a : ℕ) × (o ≡ some (set_ref a)) × (a < n))
slot_cases n none h = inl refl
slot_cases n (some (set_ref a)) h = inr (a, refl, h)
slot_cases n (some (byte_slice b)) h = absurd h
slot_cases n (some (int64 b)) h = absurd h
slot_cases n (some (str b)) h = absurd h
slot_cases n (some (opaque b)) h = absurd h

slot_lt : (n : ℕ) (o : Option Value) (a : ℕ) → IsSlot n o → o ≡ some (set_ref a) → a < n
slot_lt n o a h e = elim (slot_cases n o h) [
  | inl empty ↦ absurd (ground arith)
  | inr (b, found, lt) ↦ ground arith
]

IsSlot-suc : (n : ℕ) (o : Option Value) → IsSlot n o → IsSlot (n + 1) o
IsSlot-suc n o h = elim (slot_cases n o h) [
  | inl empty ↦ rw empty tt
  | inr (a, found, lt) ↦ rw found (omega arith)
]

-- What one operation on kind k leaves alone: the other kinds' messages and every other key.
pub record Keeps (k : Kind) (s s' : Store) : Type 0 where
  pub others : (j : Kind) → kind_beq k j ≡ false → messages j s' ≡ messages j s
  pub session_keys :
      (q : Bytes) → Dict.lookup (session_key q) s'.values ≡ Dict.lookup (session_key q) s.values

module _ (k : Kind) (m : Bytes) (s : Store) where
  -- the store after add, where the kind has the set at address a
  abbrev pub stored : ℕ → Store
  stored a = record s { sets = Dict.insert a (set_insert m (members s a)) s.sets }

  pub stored-IsValid : (a : ℕ) → IsValid s → IsValid (stored a)
  unfolding members
  stored-IsValid a v = record {
    typed = v.typed;
    separate = v.separate;
    distinct = λ b. ground (
      arith,
      lookup-insert a b (set_insert m (members s a)) s.sets,
      v.distinct a,
      v.distinct b,
      set_insert-IsDistinct m (members s a),
    );
  }

  pub stored-messages :
      (a : ℕ) → slot s k ≡ some (set_ref a) → messages k (stored a) ≡ set_insert m (messages k s)
  unfolding messages members
  stored-messages a e = ground (arith, lookup-insert a a (set_insert m (members s a)) s.sets)

  pub stored-Keeps : (a : ℕ) → IsValid s → slot s k ≡ some (set_ref a) → Keeps k s (stored a)
  unfolding messages members
  stored-Keeps a v e = record {
    others = λ j ne. elim (slot_cases _ (slot s j) (v.typed j)) [
      | inl empty ↦ rw empty refl
      | inr (b, so, lt) ↦
          ground (arith, lookup-insert a b (set_insert m (members s a)) s.sets, v.separate j k a)
    ];
    session_keys = λ q. refl;
  }

module _ (k : Kind) (s : Store) where
  pub make_set-slot :
      (j : Kind)
      → slot (make_set k s) j ≡ (if kind_beq k j then some (set_ref s.next) else slot s j)
  unfolding make_set
  make_set-slot j =
      ground
        (arith, lookup-insert (kind_key k) (kind_key j) (set_ref s.next) s.values, kind_key-beq k j)

  pub make_set-members :
      (a : ℕ) → members (make_set k s) a ≡ (if s.next == a then [] else members s a)
  unfolding make_set members
  make_set-members a = ground (arith, lookup-insert s.next a [] s.sets)

  make_set-next : (make_set k s).next ≡ s.next + 1
  unfolding make_set
  make_set-next = refl

  pub make_set-IsValid : IsValid s → IsValid (make_set k s)
  make_set-IsValid v = record {
    typed = λ j.
        rw (make_set-slot j, make_set-next)
          (elim (kind_beq k j)
            as (λ b. IsSlot (s.next + 1) (if b then some (set_ref s.next) else slot s j)) [
              | true ↦ omega arith
              | false ↦ IsSlot-suc s.next (slot s j) (v.typed j)
            ]);
    separate = λ i j a e f. ground (
      arith,
      make_set-slot i,
      make_set-slot j,
      slot_lt s.next (slot s i) a (v.typed i),
      slot_lt s.next (slot s j) a (v.typed j),
      v.separate i j a,
      kind_beq→eq k i,
      kind_beq→eq k j,
    );
    distinct = λ a. ground (arith, make_set-members a, v.distinct a);
  }

  make_set-session :
      (q : Bytes)
      → Dict.lookup (session_key q) (make_set k s).values ≡ Dict.lookup (session_key q) s.values
  unfolding make_set key_beq
  make_set-session q = lookup-insert (kind_key k) (session_key q) (set_ref s.next) s.values

  pub make_set-Keeps : IsValid s → Keeps k s (make_set k s)
  unfolding messages
  make_set-Keeps v = record {
    others = λ j ne. elim (slot_cases _ (slot s j) (v.typed j)) [
      | inl empty ↦ ground (arith, make_set-slot j)
      | inr (b, so, lt) ↦ ground (arith, make_set-slot j, make_set-members b)
    ];
    session_keys = make_set-session;
  }
