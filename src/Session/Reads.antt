-- ===== src/Session/Reads.antt =====
-- session/session.go: what the reads do to a session.
use go_bananas.Base.{
  ◌≡◌, ◌≢◌, refl, ap, false, Option, none, some, [], ◌∷◌, Bytes, if◌then◌else◌, arith, list_beq,
  ◌==◌, Bool-cases, inl, inr,
}
use go_bananas.Base.Dict
use go_bananas.Base.Dict.{lookup-insert, lookup-delete}
use go_bananas.Base.Int.{pos, eqb_ℤ}
use go_bananas.Base.Result.{ok}
use go_bananas.Values.{Key, Value, byte_slice, int64, Values, key_eq, key_beq}
use go_bananas.Session.{
  Session, csrf_key, activity_key, nonce_key, region_key, session_get, session_clear,
  store_csrf_token, csrf_token, read_csrf_token, last_activity, read_last_activity, nonce, region,
  zero_time, string_or_empty, lookup_in, delete_in, put_in,
}
use go_bananas.Session.Access.{
  View, view, live, token_of, activity_of, token_lem, activity_lem, view_token,
}

session_get-clear :
    (s : Option Session) (k j : Key)
    → session_get (session_clear k s) j ≡ (if k == j then none else session_get s j)
unfolding session_get session_clear
session_get-clear none k j = ground arith
session_get-clear (some s) k j = clear_in s.values
  where
    clear_in :
        (o : Option Values) → lookup_in j (delete_in k o) ≡ (if k == j then none else lookup_in j o)
    clear_in none = ground arith
    clear_in (some vs) = lookup-delete k j vs

-- The view of any session, through its four entries.
abbrev view_at : (Key → Option Value) → View
view_at get = record {
  token = token_of (get csrf_key);
  activity = activity_of (get activity_key);
  nonce = string_or_empty (get nonce_key);
  region = string_or_empty (get region_key);
}

view_get : (s : Option Session) → view s ≡ view_at (session_get s)
unfolding view csrf_token last_activity nonce region
view_get s = simp (token_lem, activity_lem)

view_clear_token :
    (s : Option Session)
    → token_of (session_get s csrf_key) ≡ []
    → view (session_clear csrf_key s) ≡ view s
unfolding key_beq list_beq
view_clear_token s h = simp (view_get, session_get-clear) (simp h)

view_clear_activity :
    (s : Option Session)
    → activity_of (session_get s activity_key) ≡ zero_time
    → view (session_clear activity_key s) ≡ view s
unfolding key_beq list_beq
view_clear_activity s h = simp (view_get, session_get-clear) (simp h)

-- An entry is absent, or of the type that its accessor wants.
abbrev pub IsToken : Option Value → Type 0
IsToken none = Unit
IsToken (some (byte_slice t)) = Unit
IsToken (some v) = ⊥

abbrev pub IsActivity : Option Value → Type 0
IsActivity none = Unit
IsActivity (some (int64 i)) = eqb_ℤ i (pos 0) ≡ false
IsActivity (some v) = ⊥

session_clear-IsToken :
    (s : Option Session) → IsToken (session_get (session_clear csrf_key s) csrf_key)
unfolding key_beq list_beq
session_clear-IsToken s = rw session_get-clear tt

session_clear-IsActivity :
    (s : Option Session) → IsActivity (session_get (session_clear activity_key s) activity_key)
unfolding key_beq list_beq
session_clear-IsActivity s = rw session_get-clear tt

read-IsToken :
    (s : Option Session) (o : Option Value)
    → session_get s csrf_key ≡ o
    → (view (read_csrf_token o s).1 ≡ view s)
      × IsToken (session_get (read_csrf_token o s).1 csrf_key)
unfolding read_csrf_token
read-IsToken s none e = (refl, rw e tt)
read-IsToken s (some (byte_slice t)) e = (refl, rw e tt)
read-IsToken s _ e = (view_clear_token s (rw e refl), session_clear-IsToken s)

read-IsActivity :
    (s : Option Session) (o : Option Value)
    → session_get s activity_key ≡ o
    → (view (read_last_activity o s).1 ≡ view s)
      × IsActivity (session_get (read_last_activity o s).1 activity_key)
unfolding read_last_activity
read-IsActivity s none e = (refl, rw e tt)
read-IsActivity s (some (int64 i)) e = elim (Bool-cases (eqb_ℤ i (pos 0))) [
  | inl zero ↦ rw zero (view_clear_activity s (rw e (rw zero refl)), session_clear-IsActivity s)
  | inr other ↦ rw other (refl, rw e other)
]
read-IsActivity s _ e = (view_clear_activity s (rw e refl), session_clear-IsActivity s)

-- On every session, be it nil, without a map, or with values of other types, CSRFToken and
-- LastActivity change no result of any accessor. After CSRFToken the token's entry is absent or a
-- byte slice, and after LastActivity the time's entry is absent or an int64 other than 0. Nothing is
-- said of what Nonce and Region leave in the session.
pub reads_clean :
    (s : Option Session)
    → (view (csrf_token s).1 ≡ view s)
      × IsToken (session_get (csrf_token s).1 csrf_key)
      × (view (last_activity s).1 ≡ view s)
      × IsActivity (session_get (last_activity s).1 activity_key)
unfolding csrf_token last_activity
reads_clean s =
    let (a, b) = read-IsToken s (session_get s csrf_key) refl in
    let (c, d) = read-IsActivity s (session_get s activity_key) refl in (a, b, c, d)

token_view :
    (vs : Values) (t : Bytes) → (csrf_token (live (Dict.insert csrf_key (byte_slice t) vs))).0 ≡ t
unfolding view
token_view vs t = ap {A = View} {B = Bytes} (λ v. v.token) (view_token vs t)

-- A token that was stored is read back.
pub store-token :
    (s : Session) (t : Bytes) (s' : Option Session)
    → t ≢ []
    → store_csrf_token (some s) t ≡ ok s'
    → (csrf_token s').0 ≡ t
unfolding store_csrf_token
store-token s [] s' ne e = absurd (ne refl)
store-token s (b ∷ t) s' ne e = go s.values e
  where
    go :
        (o : Option Values)
        → put_in csrf_key (byte_slice (b ∷ t)) o ≡ ok s'
        → (csrf_token s').0 ≡ b ∷ t
    go none h = absurd (ground arith)
    go (some vs) h =
        let same : s' ≡ live (Dict.insert csrf_key (byte_slice (b ∷ t)) vs) = ground arith in
        rw same (token_view vs (b ∷ t))

-- Reading the token leaves a session where there was one.
pub csrf_token-some : (s : Session) → (s' : Session) × ((csrf_token (some s)).1 ≡ some s')
unfolding csrf_token read_csrf_token
csrf_token-some s = go (session_get (some s) csrf_key)
  where
    go : (o : Option Value) → (s' : Session) × ((read_csrf_token o (some s)).1 ≡ some s')
    go none = (s, refl)
    go (some (byte_slice t)) = (s, refl)
    go (some v) = (_, refl)
