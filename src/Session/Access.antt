-- ===== src/Session/Access.antt =====
-- session/session.go: what is read after each write.
use go_bananas.Base.{
  ℕ, ◌≤◌, ◌≡◌, refl, false, Option, some, [], ◌∷◌, Bytes, if◌then◌else◌, arith, list_beq,
}
use go_bananas.Base.Dict
use go_bananas.Base.Dict.{lookup-insert, lookup-delete}
use go_bananas.Base.Int.{ℤ, pos, eqb_ℤ}
use go_bananas.Base.Result.{ok}
use go_bananas.Values.{Value, byte_slice, int64, str, Values, key_eq, key_beq}
use go_bananas.Session.{
  Session, csrf_key, activity_key, nonce_key, region_key, store_csrf_token, csrf_token,
  read_csrf_token, store_last_activity, last_activity, read_last_activity, store_nonce, nonce,
  store_region, region, unix, zero_time, string_or_empty,
}

-- What the four accessors return.
pub record View : Type 0 where
  pub token : Bytes
  pub activity : ℤ
  pub nonce : Bytes
  pub region : Bytes

unfoldable pub view : Option Session → View
view s = record {
  token = (csrf_token s).0;
  activity = (last_activity s).0;
  nonce = nonce s;
  region = region s;
}

-- A session with an allocated map.
abbrev pub live : Values → Option Session
live vs = some (record { values = some vs })

abbrev pub token_of : Option Value → Bytes
token_of (some (byte_slice t)) = t
token_of _ = []

abbrev pub activity_of : Option Value → ℤ
activity_of (some (int64 i)) = if eqb_ℤ i (pos 0) then zero_time else i
activity_of _ = zero_time

-- The view of an allocated map, through its four entries.
abbrev view_of : Values → View
view_of vs = record {
  token = token_of (Dict.lookup csrf_key vs);
  activity = activity_of (Dict.lookup activity_key vs);
  nonce = string_or_empty (Dict.lookup nonce_key vs);
  region = string_or_empty (Dict.lookup region_key vs);
}

pub token_lem : (o : Option Value) (s : Option Session) → (read_csrf_token o s).0 ≡ token_of o
unfolding read_csrf_token
token_lem o s = ground arith

pub activity_lem :
    (o : Option Value) (s : Option Session) → (read_last_activity o s).0 ≡ activity_of o
unfolding read_last_activity
activity_lem o s = ground arith

pub view_lem : (vs : Values) → view (live vs) ≡ view_of vs
unfolding view csrf_token last_activity nonce region
view_lem vs = simp (token_lem, activity_lem)

-- The view after one entry is written: the accessor of that entry reads it, the others do not.
pub view_token :
    (vs : Values) (t : Bytes)
    → view (live (Dict.insert csrf_key (byte_slice t) vs)) ≡ record (view (live vs)) { token = t }
unfolding key_beq list_beq
view_token vs t = simp (view_lem, lookup-insert)

pub view_activity :
    (vs : Values) (i : ℤ)
    → eqb_ℤ i (pos 0) ≡ false
    → view (live (Dict.insert activity_key (int64 i) vs)) ≡ record (view (live vs)) { activity = i }
unfolding key_beq list_beq
view_activity vs i h = simp (view_lem, lookup-insert) (simp h)

view_nonce :
    (vs : Values) (t : Bytes)
    → view (live (Dict.insert nonce_key (str t) vs)) ≡ record (view (live vs)) { nonce = t }
unfolding key_beq list_beq
view_nonce vs t = simp (view_lem, lookup-insert)

view_region :
    (vs : Values) (t : Bytes)
    → view (live (Dict.insert region_key (str t) vs)) ≡ record (view (live vs)) { region = t }
unfolding key_beq list_beq
view_region vs t = simp (view_lem, lookup-insert)

-- On a session with an allocated map each Store succeeds, and afterwards its accessor returns what
-- was stored, while the three others return what they returned before. The token is not empty, and
-- the time, which is cut to seconds, does not lie within the first second of 1970.
pub view-store :
    (vs : Values) (b : ℕ) (token : Bytes) (t : ℕ) (text : Bytes)
    → 1000000000 ≤ t
    → ((s : Option Session) × (store_csrf_token (live vs) (b ∷ token) ≡ ok s)
        × (view s ≡ record (view (live vs)) { token = b ∷ token }))
      × ((s : Option Session) × (store_last_activity (live vs) t ≡ ok s)
          × (view s ≡ record (view (live vs)) { activity = unix t }))
      × ((s : Option Session) × (store_nonce (live vs) text ≡ ok s)
          × (view s ≡ record (view (live vs)) { nonce = text }))
      × ((s : Option Session) × (store_region (live vs) text ≡ ok s)
          × (view s ≡ record (view (live vs)) { region = text }))
unfolding store_csrf_token store_last_activity store_nonce store_region
view-store vs b token t text h = (
  (live _, refl, view_token vs (b ∷ token)),
  (live _, refl, view_activity vs (unix t) (ground arith)),
  (live _, refl, view_nonce vs text),
  (live _, refl, view_region vs text),
)
