-- ===== src/Secrets/JsonExpander/Selection.antt =====
-- What a dotted name selects: the path of keys as a relation on JSON values.
use go_bananas.Base.{
  ℕ, ◌≡◌, ◌↔◌, refl, sym, ap, ◌∙◌, Option, none, some, List, [], ◌∷◌, ◌++◌, Bytes, join, AllLack,
  split-join, ◌⊎◌, inl, inr, arith,
}
use go_bananas.Base.Result.{ok, ◌>>=◌, >>=-eq-ok}
use go_bananas.Secrets.JsonExpander.{
  Json, Members, Error, null, boolean, number, string, array, object, field, found, enter,
  walk_path, as_string, from, expand_secret, manager_failed, malformed,
}

-- The keys of the path lead from one value to another, through objects only.
abbrev pub At : Json → List Bytes → Json → Type 0
At cur [] last = cur ≡ last
At cur (key ∷ path) last =
    (ms : Members) × (next : Json) × (cur ≡ object ms)
    × (field key ms ≡ some next)
    × At next path last

found-eq-ok : (key : Bytes) (o : Option Json) (v : Json) → found key o ≡ ok v → o ≡ some v
found-eq-ok key none v h = absurd (ground arith)
found-eq-ok key (some w) v h = ground (arith, h)

enter-eq-ok :
    (seen : List Bytes) (cur : Json) (key : Bytes) (next : Json)
    → enter seen cur key ≡ ok next
    → (ms : Members) × (cur ≡ object ms) × (field key ms ≡ some next)
enter-eq-ok seen (object ms) key next h = (ms, refl, found-eq-ok key (field key ms) next h)
enter-eq-ok seen null key next h = absurd (ground arith)
enter-eq-ok seen (boolean b) key next h = absurd (ground arith)
enter-eq-ok seen (number n) key next h = absurd (ground arith)
enter-eq-ok seen (string s) key next h = absurd (ground arith)
enter-eq-ok seen (array js) key next h = absurd (ground arith)

walk_path-At :
    (seen : List Bytes) (cur : Json) (path : List Bytes) (last : Json)
    → walk_path seen cur path ≡ ok last
    → At cur path last
unfolding walk_path
walk_path-At seen cur [] last h = ground (arith, h)
walk_path-At seen cur (key ∷ path) last h =
    let (next, entered, rest) = >>=-eq-ok (enter seen cur key) _ h in
    let (ms, e, there) = enter-eq-ok seen cur key next entered in
    (ms, next, e, there, walk_path-At (seen ++ key ∷ []) next path last rest)

At-walk_path :
    (seen : List Bytes) (cur : Json) (path : List Bytes) (last : Json)
    → At cur path last
    → walk_path seen cur path ≡ ok last
unfolding walk_path
At-walk_path seen cur [] last h = ap (λ j. ok j) h
At-walk_path seen cur (key ∷ path) last (ms, next, e, there, rest) =
    (rw (e, there) (At-walk_path (seen ++ key ∷ []) next path last rest))

as_string-eq-ok : (j : Json) (s : Bytes) → as_string j ≡ ok s → j ≡ string s
as_string-eq-ok (string t) s h = ground (arith, h)
as_string-eq-ok null s h = absurd (ground arith)
as_string-eq-ok (boolean b) s h = absurd (ground arith)
as_string-eq-ok (number n) s h = absurd (ground arith)
as_string-eq-ok (array js) s h = absurd (ground arith)
as_string-eq-ok (object ms) s h = absurd (ground arith)

from-eq-ok {ℓ} :
    {A : Type ℓ} (wrap : ℕ → Error) (r : ℕ ⊎ A) (a : A) → from wrap r ≡ ok a → r ≡ inr a
from-eq-ok wrap (inl e) a h = absurd (ground arith)
from-eq-ok wrap (inr b) a h = ground (arith, h)

module _ (manager : Bytes → ℕ ⊎ Bytes) (unmarshal : Bytes → ℕ ⊎ Members) where
  -- The secret itself, or the string at a path in the JSON object that it holds
  abbrev pub Selects : Bytes → List Bytes → Bytes → Type 0
  Selects secret [] value = manager secret ≡ inr value
  Selects secret (key ∷ path) value =
      (text : Bytes) × (root : Members) × (manager secret ≡ inr text)
      × (unmarshal text ≡ inr root)
      × At (object root) (key ∷ path) (string value)

  -- The dotted name of a secret and of keys, none with a period of its own, has a value exactly if
  -- the keys lead, object by object, from the secret's JSON object to that string. Without keys
  -- the value is the secret.
  pub expand_secret-Selects :
      (secret : Bytes) (path : List Bytes) (value : Bytes)
      → AllLack 46 (secret ∷ path)
      → (expand_secret manager unmarshal (join 46 (secret ∷ path)) ≡ ok value)
        ↔ Selects secret path value
  unfolding expand_secret
  expand_secret-Selects secret [] value h =
      (rw (split-join 46 secret [] h) (whole, λ e. (rw (ap manager single, e) refl)))
    where
      single : join 46 (secret ∷ []) ≡ secret
      single = unfold join in refl

      whole :
          from manager_failed (manager (join 46 (secret ∷ []))) ≡ ok value
          → manager secret ≡ inr value
      whole e = ap manager (sym single) ∙ from-eq-ok manager_failed _ value e
  expand_secret-Selects secret (key ∷ path) value h =
      (rw (split-join 46 secret (key ∷ path) h) (there, back))
    where
      there :
          (from manager_failed (manager secret) >>= λ text.
          from malformed (unmarshal text) >>= λ root.
          walk_path [] (object root) (key ∷ path) >>= as_string)
            ≡ ok value
          → Selects secret (key ∷ path) value
      there e =
          let (text, a, e1) = >>=-eq-ok (from manager_failed (manager secret)) _ e in
          let (root, b, e2) = >>=-eq-ok (from malformed (unmarshal text)) _ e1 in
          let (last, c, d) = >>=-eq-ok (walk_path [] (object root) (key ∷ path)) _ e2 in
          (
            text,
            root,
            from-eq-ok manager_failed _ text a,
            from-eq-ok malformed _ root b,
            walk_path-At [] (object root) (key ∷ path) (string value)
                (c ∙ ap (λ j. ok j) (as_string-eq-ok last value d)),
          )

      back :
          Selects secret (key ∷ path) value
          → (from manager_failed (manager secret) >>= λ text.
              from malformed (unmarshal text) >>= λ root.
              walk_path [] (object root) (key ∷ path) >>= as_string)
            ≡ ok value
      back (text, root, a, b, c) =
          (rw (a, b, At-walk_path [] (object root) (key ∷ path) (string value) c) refl)
