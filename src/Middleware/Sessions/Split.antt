-- ===== src/Middleware/Sessions/Split.antt =====
-- middleware/sessions.go: the companion cookies of large values.
use go_bananas.Base.{
  Bytes, bytes_eq, true, false, ◌⊎◌, inl, inr, Bool-cases, ◌∙◌, sym, ap, subst, Bool, ◌≡◌, refl,
  Option, none, some, List, [], ◌∷◌, arith, if◌then◌else◌, ◌==◌,
}
use go_bananas.Base.Dict
use go_bananas.Base.Dict.{Dict, lookup-insert, lookup-delete}
use go_bananas.Session.{lookup_in}
use go_bananas.Values.{Key, key_eq, Value, Values}
use go_bananas.Middleware.Sessions.{
  member, split_keys, put_found, join_split_session_cookie, join_all, split_found,
  split_session_cookie, split_all, split_cookie_name,
}

abbrev pub or_else : Option Value → Option Value → Option Value
or_else none b = b
or_else (some a) b = some a

lookup-put_found :
    (q k : Key) (o : Option Value) (vs : Values)
    → Dict.lookup q (put_found k o vs)
      ≡ (if k == q then or_else o (Dict.lookup q vs) else Dict.lookup q vs)
lookup-put_found q k none vs = ground arith
lookup-put_found q k (some v) vs = ground (arith, lookup-insert k q v vs)

or_else-twice : (a b : Option Value) → or_else a (or_else a b) ≡ or_else a b
or_else-twice none b = refl
or_else-twice (some a) b = refl

pub or_else-none : (a : Option Value) → or_else a none ≡ a
or_else-none none = refl
or_else-none (some a) = refl

pub lookup-join_all :
    (shown : Bytes → Bytes) (cookies : Bytes → Option Values) (q : Key) (ks : List Key)
    (vs : Values)
    → Dict.lookup q (join_all shown cookies ks vs) ≡ (
        if member q ks
        then or_else (lookup_in q (cookies (split_cookie_name shown q))) (Dict.lookup q vs)
        else Dict.lookup q vs)
unfolding join_all join_split_session_cookie member
lookup-join_all shown cookies q [] vs = refl
lookup-join_all shown cookies q (k ∷ ks) vs = ground (
  arith,
  key_eq.equals_iff k q,
  lookup-join_all shown cookies q ks
      (put_found k (lookup_in k (cookies (split_cookie_name shown k))) vs),
  lookup-put_found q k (lookup_in k (cookies (split_cookie_name shown k))) vs,
  or_else-twice (lookup_in q (cookies (split_cookie_name shown q))) (Dict.lookup q vs),
)

lookup-split_found :
    (q k : Key) (o : Option Value) (vs : Values)
    → Dict.lookup k vs ≡ o
    → Dict.lookup q (split_found k o vs).1 ≡ (if k == q then none else Dict.lookup q vs)
lookup-split_found q k none vs h = ground (arith, key_eq.equals_iff k q, h)
lookup-split_found q k (some v) vs h = lookup-delete k q vs

part-split_found :
    (k : Key) (o : Option Value) (vs : Values) → Dict.lookup k (split_found k o vs).0 ≡ o
unfolding Dict.lookup Dict.insert
part-split_found k none vs = refl
part-split_found k (some v) vs = ground (arith, key_eq.equals_iff k k)

pub lookup-split_all :
    (shown : Bytes → Bytes) (q : Key) (ks : List Key) (vs : Values)
    → Dict.lookup q (split_all shown ks vs).1 ≡ (if member q ks then none else Dict.lookup q vs)
unfolding split_all split_session_cookie member
lookup-split_all shown q [] vs = refl
lookup-split_all shown q (k ∷ ks) vs = ground (
  arith,
  lookup-split_all shown q ks (split_found k (Dict.lookup k vs) vs).1,
  lookup-split_found q k (Dict.lookup k vs) vs refl,
)

abbrev pub later : Option Values → Option Values → Option Values
later none o = o
later (some last) o = some last

-- What a client keeps of the cookies that are set, one after another: the last of a name.
abbrev pub last_cookie : List (Bytes × Values) → Bytes → Option Values
last_cookie [] name = none
last_cookie ((n, vs) ∷ saved) name =
    later (last_cookie saved name) (if n == name then some vs else none)

later-unset :
    (q : Key) (o : Option Values) (b : Bool) (vs : Values)
    → b ≡ false
    → lookup_in q (later o (if b then some vs else none)) ≡ lookup_in q o
later-unset q none b vs h = ground (arith, h)
later-unset q (some last) b vs h = refl

later-none :
    (q : Key) (o : Option Values) (b : Bool) (vs : Values)
    → o ≡ none
    → b ≡ true
    → lookup_in q (later o (if b then some vs else none)) ≡ Dict.lookup q vs
later-none q o b vs h e = (rw (h, e) refl)

-- No two of the keys have the same cookie.
abbrev pub AreApart : (Bytes → Bytes) → List Key → Type 0
AreApart shown keys =
    (j k : Key)
    → member j keys ≡ true
    → member k keys ≡ true
    → split_cookie_name shown j ≡ split_cookie_name shown k
    → j ≡ k

abbrev IsApart : (Bytes → Bytes) → Key → List Key → Type 0
IsApart shown q ks =
    (k : Key) → member k ks ≡ true → split_cookie_name shown k ≡ split_cookie_name shown q → k ≡ q

IsApart-tail :
    (shown : Bytes → Bytes) (q k : Key) (ks : List Key)
    → IsApart shown q (k ∷ ks)
    → IsApart shown q ks
unfolding member
IsApart-tail shown q k ks h j there = h j (ground (arith, there))

IsApart-head :
    (shown : Bytes → Bytes) (q k : Key) (ks : List Key)
    → IsApart shown q (k ∷ ks)
    → split_cookie_name shown k ≡ split_cookie_name shown q
    → k ≡ q
unfolding member
IsApart-head shown q k ks h = h k (ground (arith, key_eq.equals_iff k k))

last_cookie-absent :
    (shown : Bytes → Bytes) (q : Key) (ks : List Key) (vs : Values)
    → IsApart shown q ks
    → member q ks ≡ false
    → last_cookie (split_all shown ks vs).0 (split_cookie_name shown q) ≡ none
unfolding split_all split_session_cookie member
last_cookie-absent shown q [] vs apart h = refl
last_cookie-absent shown q (k ∷ ks) vs apart h = ground (
  arith,
  h,
  bytes_eq.equals_iff (split_cookie_name shown k) (split_cookie_name shown q),
  key_eq.equals_iff k q,
  IsApart-head shown q k ks apart,
  last_cookie-absent shown q ks (split_found k (Dict.lookup k vs) vs).1
      (IsApart-tail shown q k ks apart),
)

-- No key is listed twice.
abbrev IsUnique : List Key → Type 0
IsUnique [] = Unit
IsUnique (k ∷ ks) = (member k ks ≡ false) × IsUnique ks

pub last_cookie-present :
    (shown : Bytes → Bytes) (q : Key) (ks : List Key) (vs : Values)
    → IsApart shown q ks
    → IsUnique ks
    → member q ks ≡ true
    → lookup_in q (last_cookie (split_all shown ks vs).0 (split_cookie_name shown q))
      ≡ Dict.lookup q vs
unfolding split_all split_session_cookie member
last_cookie-present shown q [] vs apart unique h = absurd (ground (arith, h))
last_cookie-present shown q (k ∷ ks) vs apart (fresh, unique) h = elim (Bool-cases (member q ks)) [
  | inl there ↦
      let other : (k == q) ≡ false = ground (arith, fresh, there, key_eq.equals_iff k q) in
      later-unset q _ _ _ (
        ground (
          arith,
          other,
          key_eq.equals_iff k q,
          IsApart-head shown q k ks apart,
          bytes_eq.equals_iff (split_cookie_name shown k) (split_cookie_name shown q),
        ))
      ∙ last_cookie-present shown q ks (split_found k (Dict.lookup k vs) vs).1
          (IsApart-tail shown q k ks apart) unique there
      ∙ ground (arith, other, lookup-split_found q k (Dict.lookup k vs) vs refl)
  | inr missing ↦
      let same : k ≡ q = ground (arith, h, missing, key_eq.equals_iff k q) in
      later-none q _ _ _
        (last_cookie-absent shown q ks (split_found k (Dict.lookup k vs) vs).1
          (IsApart-tail shown q k ks apart) missing)
        ((bytes_eq.equals_iff _ _).1 (ap (split_cookie_name shown) same))
      ∙ subst (λ j. Dict.lookup j (split_found k (Dict.lookup k vs) vs).0 ≡ Dict.lookup j vs) same
          (part-split_found k (Dict.lookup k vs) vs)
]

pub member-split_keys : (q : Key) (ks : List Key) → member q (split_keys ks) ≡ member q ks
unfolding split_keys member
member-split_keys q [] = refl
member-split_keys q (k ∷ ks) = ground (arith, key_eq.equals_iff k q, member-split_keys q ks)

pub split_keys-IsUnique : (ks : List Key) → IsUnique (split_keys ks)
unfolding split_keys
split_keys-IsUnique [] = tt
split_keys-IsUnique (k ∷ ks) = ground (arith, split_keys-IsUnique ks)

-- If no two of the keys have the same cookie, the values that are split over the companion cookies
-- when a session is saved are all there again when the next request has joined them, also where a
-- key is listed twice. The client keeps of each name the cookie that is set last.
pub lookup-join-split :
    (shown : Bytes → Bytes) (keys : List Key) (vs : Values) (q : Key)
    → AreApart shown keys
    → Dict.lookup q (
        join_all shown
          (last_cookie (split_all shown (split_keys keys) vs).0)
          keys
          (split_all shown (split_keys keys) vs).1)
      ≡ Dict.lookup q vs
lookup-join-split shown keys vs q apart = joined (Bool-cases (member q keys))
  where
    joined :
        (member q keys ≡ true) ⊎ (member q keys ≡ false)
        → Dict.lookup q (
            join_all shown
              (last_cookie (split_all shown (split_keys keys) vs).0)
              keys
              (split_all shown (split_keys keys) vs).1)
          ≡ Dict.lookup q vs
    joined (inl listed) = ground (
      arith,
      listed,
      lookup-join_all shown (last_cookie (split_all shown (split_keys keys) vs).0) q keys
          (split_all shown (split_keys keys) vs).1,
      lookup-split_all shown q (split_keys keys) vs,
      last_cookie-present shown q (split_keys keys) vs
          (λ k there e. apart k q (sym (member-split_keys k keys) ∙ there) listed e)
          (split_keys-IsUnique keys) (member-split_keys q keys ∙ listed),
      member-split_keys q keys,
      or_else-none (Dict.lookup q vs),
    )
    joined (inr other) = ground (
      arith,
      other,
      lookup-join_all shown (last_cookie (split_all shown (split_keys keys) vs).0) q keys
          (split_all shown (split_keys keys) vs).1,
      lookup-split_all shown q (split_keys keys) vs,
      member-split_keys q keys,
    )
