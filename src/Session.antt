-- ===== src/Session.antt =====
-- session/session.go: typed accessors over a session's values. The pointer to the session and its
-- map may both be nil; writing to a nil map panics. A time is a count of nanoseconds since 1970
-- when it is stored, and a count of seconds when it is read back.
pub mod Access
pub mod Reads
mod Tests
use go_bananas.Base.{
  ℕ, ◌/◌, Bool, true, false, Option, none, some, List, [], ◌∷◌, Bytes, codes, if◌then◌else◌,
}
use go_bananas.Base.Dict
use go_bananas.Base.Int.{ℤ, pos, negsuc, eqb_ℤ}
use go_bananas.Base.Result.{Result, ok, panic}
use go_bananas.Values.{Key, session_key, Value, byte_slice, int64, str, Values, key_eq}

pub record Session : Type 0 where
  pub values : Option Values

abbrev pub csrf_key : Key
csrf_key = session_key (codes "csrfToken")

abbrev pub activity_key : Key
activity_key = session_key (codes "lastActivity")

abbrev pub nonce_key : Key
nonce_key = session_key (codes "nonce")

abbrev pub region_key : Key
region_key = session_key (codes "region")

abbrev pub Stored : Type 0
Stored = Result (Unit {0}) (Option Session)

-- session.Values[key] = v, with the session not nil
abbrev pub put_in : Key → Value → Option Values → Stored
put_in k v none = panic
put_in k v (some vs) = ok (some (record { values = some (Dict.insert k v vs) }))

unfoldable pub put_value : Key → Value → Session → Stored
put_value k v s = put_in k v s.values

-- delete(session.Values, key); deleting from a nil map does nothing.
abbrev pub delete_in : Key → Option Values → Option Values
delete_in k none = none
delete_in k (some vs) = some (Dict.delete k vs)

unfoldable pub delete_value : Key → Session → Session
delete_value k s = record { values = delete_in k s.values }

abbrev pub lookup_in : Key → Option Values → Option Value
lookup_in k none = none
lookup_in k (some vs) = Dict.lookup k vs

-- sessionGet
unfoldable pub session_get : Option Session → Key → Option Value
session_get none k = none
session_get (some s) k = lookup_in k s.values

-- sessionClear, and so ClearCSRFToken, ClearLastActivity, ClearNonce and ClearRegion
unfoldable pub session_clear : Key → Option Session → Option Session
unfolding delete_value
session_clear k none = none
session_clear k (some s) = some (delete_value k s)

unfoldable pub store_csrf_token : Option Session → Bytes → Stored
unfolding put_value
store_csrf_token none token = ok none
store_csrf_token (some s) [] = ok (some s)
store_csrf_token (some s) (b ∷ token) = put_value csrf_key (byte_slice (b ∷ token)) s

-- What CSRFToken makes of the value found: the token, and the session, cleared of a malformed one.
unfoldable pub read_csrf_token : Option Value → Option Session → Bytes × Option Session
unfolding session_clear
read_csrf_token none s = ([], s)
read_csrf_token (some (byte_slice t)) s = (t, s)
read_csrf_token (some v) s = ([], session_clear csrf_key s)

-- CSRFToken; the nil slice is the empty one.
unfoldable pub csrf_token : Option Session → Bytes × Option Session
unfolding session_get read_csrf_token
csrf_token s = read_csrf_token (session_get s csrf_key) s

-- t.Unix() of a time in nanoseconds
abbrev pub unix : ℕ → ℤ
unix t = pos (t / 1000000000)

-- time.Time{}, in seconds since 1970
abbrev pub zero_time : ℤ
zero_time = negsuc 62135596799

unfoldable pub store_last_activity : Option Session → ℕ → Stored
unfolding put_value
store_last_activity none t = ok none
store_last_activity (some s) t = put_value activity_key (int64 (unix t)) s

unfoldable pub read_last_activity : Option Value → Option Session → ℤ × Option Session
unfolding session_clear
read_last_activity none s = (zero_time, s)
read_last_activity (some (int64 i)) s =
    if eqb_ℤ i (pos 0) then (zero_time, session_clear activity_key s) else (i, s)
read_last_activity (some v) s = (zero_time, session_clear activity_key s)

-- LastActivity
unfoldable pub last_activity : Option Session → ℤ × Option Session
unfolding session_get read_last_activity
last_activity s = read_last_activity (session_get s activity_key) s

-- v.(string), or ""
abbrev pub string_or_empty : Option Value → Bytes
string_or_empty (some (str t)) = t
string_or_empty _ = []

unfoldable pub store_nonce : Option Session → Bytes → Stored
unfolding put_value
store_nonce none n = ok none
store_nonce (some s) n = put_value nonce_key (str n) s

unfoldable pub nonce : Option Session → Bytes
unfolding session_get
nonce s = string_or_empty (session_get s nonce_key)

unfoldable pub store_region : Option Session → Bytes → Stored
unfolding put_value
store_region none r = ok none
store_region (some s) r = put_value region_key (str r) s

unfoldable pub region : Option Session → Bytes
unfolding session_get
region s = string_or_empty (session_get s region_key)

abbrev init_values : Option Values → Values
init_values none = []
init_values (some vs) = vs

-- Flash: the map that the flash is backed by, and the session with its map initialised. For a nil
-- session flash.New allocates the map.
unfoldable pub flash_values : Option Session → Values × Option Session
flash_values none = ([], none)
flash_values (some s) =
    (init_values s.values, some (record { values = some (init_values s.values) }))
