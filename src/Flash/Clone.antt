-- ===== src/Flash/Clone.antt =====
-- flash/flash.go: Clone copies the references, so the two flashes share their sets of messages.
use go_bananas.Base.{nat_eq, ◌≡◌, refl, Option, none, some, [], ◌∷◌, Bytes, arith, inl, inr, ◌≢◌}
use go_bananas.Base.Dict.{lookup-insert, lookup}
use go_bananas.Base.Result.{ok}
use go_bananas.Values.{Key, Value, Values, key_eq}
use go_bananas.Flash.{Kind, Store, members, add, ensure_set, put_message, set_insert, clone}
use go_bananas.Flash.Valid.{IsValid, messages, slot, slot_cases, stored}

abbrev pub or_else : Option Value → Option Value → Option Value
or_else none b = b
or_else (some v) b = some v

pub lookup-clone :
    (q : Key) (target vs : Values)
    → lookup q (clone target vs) ≡ or_else (lookup q vs) (lookup q target)
unfolding clone lookup
lookup-clone q target [] = refl
lookup-clone q target ((k, v) ∷ vs) =
    ground (arith, lookup-insert k q v (clone target vs), lookup-clone q target vs)

-- A flash whose kind already holds messages is cloned into the values of another session; then a
-- message is added to the first. The add succeeds, and the clone shows the new message too: what
-- waits in the clone is what waits in the first flash.
pub clone_shares :
    (k : Kind) (m : Bytes) (target : Values) (s : Store)
    → IsValid s
    → slot s k ≢ none
    → (s' : Store) × (add k m s ≡ ok s')
      × (messages k (record s' { values = clone target s.values }) ≡ set_insert m (messages k s))
unfolding messages add members
clone_shares k m target s v h = elim (slot_cases _ (slot s k) (v.typed k)) [
  | inl empty ↦ absurd (h empty)
  | inr (a, found, lt) ↦ (
    stored k m s a,
    rw (found, ensure_set) (rw (found, put_message) refl),
    rw lookup-clone
        (rw found (ground (arith, lookup-insert a a (set_insert m (members s a)) s.sets))),
  )
]
