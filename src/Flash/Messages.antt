-- ===== src/Flash/Messages.antt =====
-- flash/flash.go: messages are shown once, without duplicates and in order, and kinds are apart.
use go_bananas.Base.{
  ℕ, ◌≡◌, refl, true, ◌||◌, none, some, List, [], ◌∷◌, Bytes, arith, inl, inr, ◌∙◌, ap,
  if◌then◌else◌, bytes_eq,
}
use go_bananas.Base.Dict
use go_bananas.Base.Dict.{lookup-delete}
use go_bananas.Base.Result.{Result, ok, ◌>>=◌}
use go_bananas.Values.{session_key, set_ref, key_eq, key_beq}
use go_bananas.Flash.{
  Kind, Error, kind_key, Store, contains, members, make_set, ensure_set, put_message, add,
  take_messages, get, set_insert, sort,
}
use go_bananas.Flash.Sets.{
  IsDistinct, IsSorted, contains-set_insert, contains-sort, sort-IsDistinct, sort-IsSorted,
}
use go_bananas.Flash.Valid.{
  kind_beq, IsValid, Keeps, messages, slot, slot_cases, stored, stored-IsValid, stored-messages,
  stored-Keeps, make_set-slot, make_set-IsValid, make_set-Keeps, make_set-members, kind_key-beq,
}

kind_beq_refl : (k : Kind) → kind_beq k k ≡ true
kind_beq_refl k = ground arith

Keeps-trans : {k : Kind} {s t u : Store} → Keeps k s t → Keeps k t u → Keeps k s u
Keeps-trans h g = record {
  others = λ j ne. g.others j ne ∙ h.others j ne;
  session_keys = λ q. g.session_keys q ∙ h.session_keys q;
}

-- add succeeds, and inserts its message into the set of its kind only.
pub record Added (k : Kind) (m : Bytes) (s s' : Store) : Type 0 where
  pub runs : add k m s ≡ ok s'
  pub valid : IsValid s'
  pub inserted : messages k s' ≡ set_insert m (messages k s)
  pub kept : Keeps k s s'

module _ (k : Kind) (m : Bytes) (s : Store) (v : IsValid s) where
  add_old : (a : ℕ) → slot s k ≡ some (set_ref a) → Added k m s (stored k m s a)
  unfolding add
  add_old a e = record {
    runs = rw (e, ensure_set) (rw (e, put_message) refl);
    valid = stored-IsValid k m s a v;
    inserted = stored-messages k m s a e;
    kept = stored-Keeps k m s a v e;
  }

  made-slot : slot (make_set k s) k ≡ some (set_ref s.next)
  made-slot = rw (make_set-slot k s k, kind_beq_refl k) refl

  made-messages : messages k (make_set k s) ≡ []
  unfolding messages
  made-messages = rw made-slot (rw (make_set-members k s s.next) (ground arith))

  empty-messages : slot s k ≡ none → [] ≡ messages k s
  unfolding messages
  empty-messages e = rw e refl

  add_new : slot s k ≡ none → Added k m s (stored k m (make_set k s) s.next)
  unfolding add
  add_new e = record {
    runs = rw (e, ensure_set) (rw (made-slot, put_message) refl);
    valid = stored-IsValid k m (make_set k s) s.next (make_set-IsValid k s v);
    inserted =
        stored-messages k m (make_set k s) s.next made-slot
        ∙ ap (set_insert m) (made-messages ∙ empty-messages e);
    kept =
        Keeps-trans (make_set-Keeps k s v)
          (stored-Keeps k m (make_set k s) s.next (make_set-IsValid k s v) made-slot);
  }

  pub add_lem : (s' : Store) × Added k m s s'
  add_lem = elim (slot_cases _ (slot s k) (v.typed k)) [
    | inl empty ↦ (_, add_new empty)
    | inr (a, found, lt) ↦ (_, add_old a found)
  ]

module _ (lower : Bytes → Bytes) (k : Kind) (s : Store) (v : IsValid s) where
  -- get succeeds, returns the sorted messages of its kind, and drops them only.
  pub record Taken (s' : Store) : Type 0 where
    pub runs : get lower k s ≡ ok (sort lower (messages k s), s')
    pub valid : IsValid s'
    pub emptied : messages k s' ≡ []
    pub cleared : slot s' k ≡ none
    pub kept : Keeps k s s'

  abbrev dropped : Store
  dropped = record s { values = Dict.delete (kind_key k) s.values }

  dropped-slot : (j : Kind) → slot dropped j ≡ (if kind_beq k j then none else slot s j)
  dropped-slot j =
      ground (arith, lookup-delete (kind_key k) (kind_key j) s.values, kind_key-beq k j)

  dropped-IsValid : IsValid dropped
  unfolding members
  dropped-IsValid = record {
    typed = λ j. ground (arith, dropped-slot j, v.typed j);
    separate = λ i j a e f. ground (arith, dropped-slot i, dropped-slot j, v.separate i j a);
    distinct = v.distinct;
  }

  dropped-Keeps : Keeps k s dropped
  unfolding messages members key_beq
  dropped-Keeps = record {
    others = λ j ne. ground (arith, dropped-slot j);
    session_keys = λ q. lookup-delete (kind_key k) (session_key q) s.values;
  }

  dropped-messages : (messages k dropped ≡ []) × (slot dropped k ≡ none)
  unfolding messages
  dropped-messages = ground (arith, dropped-slot k, kind_beq_refl k)

  pub get_lem : (s' : Store) × Taken s'
  unfolding get messages
  get_lem = elim (slot_cases _ (slot s k) (v.typed k)) [
    | inl empty ↦ (
      s,
      record {
        runs = rw (empty, take_messages) (unfold sort in refl);
        valid = v;
        emptied = rw empty refl;
        cleared = empty;
        kept = record { others = λ j ne. refl; session_keys = λ q. refl };
      },
    )
    | inr (a, found, lt) ↦ (
      dropped,
      record {
        runs = rw (found, take_messages) refl;
        valid = dropped-IsValid;
        emptied = dropped-messages.0;
        cleared = dropped-messages.1;
        kept = dropped-Keeps;
      },
    )
  ]

unfoldable pub adds : Kind → List Bytes → Store → Result Error Store
adds k [] s = ok s
adds k (m ∷ ms) s = do s' ← add k m s; adds k ms s'

pub record AddedAll (k : Kind) (ms : List Bytes) (s s' : Store) : Type 0 where
  pub runs : adds k ms s ≡ ok s'
  pub valid : IsValid s'
  pub holds :
      (q : Bytes) → contains q (messages k s') ≡ (contains q ms || contains q (messages k s))
  pub kept : Keeps k s s'

adds_lem : (k : Kind) (ms : List Bytes) (s : Store) → IsValid s → (s' : Store) × AddedAll k ms s s'
unfolding adds contains
adds_lem k [] s v = (
  s,
  record {
    runs = refl;
    valid = v;
    holds = λ q. refl;
    kept = record { others = λ j ne. refl; session_keys = λ q. refl };
  },
)
adds_lem k (m ∷ ms) s v =
    let (t, first) = add_lem k m s v in
    let (u, rest) = adds_lem k ms t first.valid in
    (
      u,
      record {
        runs = rw first.runs rest.runs;
        valid = rest.valid;
        holds = λ q.
            ground (arith, rest.holds q, first.inserted, contains-set_insert q m (messages k s));
        kept = Keeps-trans first.kept rest.kept;
      },
    )

messages-IsDistinct : (k : Kind) (s : Store) → IsValid s → IsDistinct (messages k s)
unfolding messages
messages-IsDistinct k s v = elim (slot_cases _ (slot s k) (v.typed k)) [
  | inl empty ↦ rw empty tt
  | inr (a, found, lt) ↦ rw found (v.distinct a)
]

-- Messages of one kind added to a well-formed flash are shown once: no add and no get panics; the
-- get after them returns each of these messages, and each that waited before, exactly once, sorted
-- without regard to case; the next get returns nothing; and the messages of the other kinds and
-- the session's own values are what they were.
pub shown_once :
    (lower : Bytes → Bytes) (k : Kind) (ms : List Bytes) (s : Store)
    → IsValid s
    → (out : List Bytes) × (s' : Store) × (s'' : Store) × (adds k ms s ≡ ok s')
      × (get lower k s' ≡ ok (out, s''))
      × ((q : Bytes) → contains q out ≡ (contains q ms || contains q (messages k s)))
      × IsDistinct out
      × IsSorted lower out
      × (get lower k s'' ≡ ok ([], s''))
      × IsValid s''
      × Keeps k s s''
shown_once lower k ms s v =
    let (t, added) = adds_lem k ms s v in
    let (u, taken) = get_lem lower k t added.valid in
    (
      sort lower (messages k t),
      t,
      u,
      added.runs,
      taken.runs,
      (λ q. contains-sort lower q (messages k t) ∙ added.holds q),
      sort-IsDistinct lower (messages k t) (messages-IsDistinct k t added.valid),
      sort-IsSorted lower (messages k t),
      (unfold get take_messages in rw taken.cleared refl),
      taken.valid,
      Keeps-trans added.kept taken.kept,
    )
