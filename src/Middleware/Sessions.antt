-- ===== src/Middleware/Sessions.antt =====
-- middleware/sessions.go: the session around a request. What the store loads under a cookie's name
-- and whether its saves fail are arguments, as is what fmt.Sprintf prints for a key of another
-- type; a handler is the list of what it does, in order. The companions are saved in the order in
-- which the keys are listed, where the source ranges over a map. The session's name is no
-- companion's.
pub mod Split
pub mod Commit
pub mod Survives
pub mod Idle
mod Tests
use go_bananas.Base.{
  ℕ, ◌+◌, ◌*◌, ◌-◌, Bool, true, false, ◌||◌, ◌&&◌, not, Option, none, some, List, [], ◌∷◌, ◌++◌,
  Bytes, codes, ◌==◌, ltb, if◌then◌else◌, any, map,
}
use go_bananas.Base.Dict
use go_bananas.Base.Dict.{Dict}
use go_bananas.Base.Int.{ℤ, pos, negsuc, eqb_ℤ, ltb_ℤ}
use go_bananas.Values.{Key, flash_key, session_key, other_key, key_eq, Value, int64, Values}
use go_bananas.Session.{Session, activity_key, lookup_in, unix, last_activity, zero_time}

unfoldable pub member : Key → List Key → Bool
member k [] = false
member k (j ∷ js) = j == k || member k js

-- The keys of the map splitSessions, which holds each split key once.
unfoldable pub split_keys : List Key → List Key
unfolding member
split_keys [] = []
split_keys (k ∷ ks) = let rest = split_keys ks in if member k rest then rest else k ∷ rest

-- splitCookieName: keys of different types may print alike.
abbrev key_text : (Bytes → Bytes) → Key → Bytes
key_text shown (flash_key s) = s
key_text shown (session_key s) = s
key_text shown (other_key s) = shown s

unfoldable pub split_cookie_name : (Bytes → Bytes) → Key → Bytes
split_cookie_name shown k = codes "_gbs-" ++ key_text shown k

-- joinSplitSessionCookie; the companion session's values may be nil. The store gives one session
-- for a name.
abbrev pub put_found : Key → Option Value → Values → Values
put_found k none vs = vs
put_found k (some v) vs = Dict.insert k v vs

unfoldable pub join_split_session_cookie :
    (Bytes → Bytes) → (Bytes → Option Values) → Key → Values → Values
join_split_session_cookie shown cookies k vs =
    put_found k (lookup_in k (cookies (split_cookie_name shown k))) vs

unfoldable pub join_all : (Bytes → Bytes) → (Bytes → Option Values) → List Key → Values → Values
unfolding join_split_session_cookie
join_all shown cookies [] vs = vs
join_all shown cookies (k ∷ ks) vs =
    join_all shown cookies ks (join_split_session_cookie shown cookies k vs)

-- splitSessionCookie: the companion's values and the session's.
abbrev pub split_found : Key → Option Value → Values → Values × Values
split_found k none vs = ([], vs)
split_found k (some v) vs = (Dict.insert k v [], Dict.delete k vs)

unfoldable pub split_session_cookie : Key → Values → Values × Values
split_session_cookie k vs = split_found k (Dict.lookup k vs) vs

-- The loop of saveSession: the values that are saved, one after another, each under the name of a
-- cookie, and what is left in the session. Two keys that print alike are saved under one name.
unfoldable pub split_all : (Bytes → Bytes) → List Key → Values → List (Bytes × Values) × Values
unfolding split_session_cookie split_cookie_name
split_all shown [] vs = ([], vs)
split_all shown (k ∷ ks) vs =
    let (part, rest) = split_session_cookie k vs in
    let (parts, last) = split_all shown ks rest in ((split_cookie_name shown k, part) ∷ parts, last)

-- What is done to the underlying writer: a cookie of a companion or of the session, which is lost
-- once the header has been sent, a status, a piece of the body, the page of
-- response.InternalError, a flush, which sends the header, and a takeover of the connection.
pub data Event : Type 0 where
  companion : Bytes → Values → Event
  main_cookie : Values → Event
  status : ℕ → Event
  body : Bytes → Event
  error_page : Event
  flush : Event
  hijack : Event

-- What a handler does to its session, through its writer, and to the underlying writer, which
-- Unwrap gives to http.ResponseController; a panic ends it.
pub data Call : Type 0 where
  update : (Values → Values) → Call
  write_header : ℕ → Call
  write : Bytes → Call
  unwrap : Event → Call
  panics : Call

-- The session's values, the once guard with its saveErr, and beforeFirstByteWriter.
pub record Writer : Type 0 where
  pub values : Values
  pub done : Bool
  pub failed : Bool
  pub wrote_header : Bool
  pub events : List Event

module _ (shown : Bytes → Bytes) (keys : List Key) (save_fails : Option Bytes → Values → Bool)
    (now : ℕ) where
  abbrev pub companions : List (Bytes × Values) → List Event
  companions [] = []
  companions ((name, vs) ∷ parts) =
      let rest = companions parts in
      if save_fails (some name) vs then rest else companion name vs ∷ rest

  abbrev pub any_fails : List (Bytes × Values) → Bool
  any_fails [] = false
  any_fails ((name, vs) ∷ parts) = save_fails (some name) vs || any_fails parts

  -- The values that the session cookie is saved with: StoreLastActivity follows the splits.
  abbrev pub main_values : Values → Values
  main_values vs =
      Dict.insert activity_key (int64 (unix now)) (split_all shown (split_keys keys) vs).1

  -- A Save that fails sets no cookie.
  abbrev pub cookies : Values → List Event
  cookies vs =
      companions (split_all shown (split_keys keys) vs).0
      ++ (if save_fails none (main_values vs) then [] else main_cookie (main_values vs) ∷ [])

  abbrev pub fails : Values → Bool
  fails vs = any_fails (split_all shown (split_keys keys) vs).0 || save_fails none (main_values vs)

  -- saveSession
  unfoldable pub save_session : Writer → Writer
  save_session w = if w.done then w else record w {
    values = main_values w.values;
    done = true;
    failed = fails w.values;
    events = w.events ++ cookies w.values;
  }

  -- WriteHeader
  unfoldable pub do_write_header : ℕ → Writer → Writer
  do_write_header c w =
      let w' = save_session w in
      if w.wrote_header then w else record w' {
        wrote_header = true;
        events = w'.events ++ status (if w'.failed then 500 else c) ∷ [];
      }

  -- Write
  unfoldable pub do_write : Bytes → Writer → Writer
  do_write b w =
      let w' = save_session w in
      if w'.failed then w' else record w' { wrote_header = true; events = w'.events ++ body b ∷ [] }

  -- The handler, and whether it returns. What Unwrap gives is used without the session being saved.
  unfoldable pub serve : List Call → Writer → Writer × Bool
  serve [] w = (w, true)
  serve (update f ∷ cs) w = serve cs (record w { values = f w.values })
  serve (write_header c ∷ cs) w = serve cs (do_write_header c w)
  serve (write b ∷ cs) w = serve cs (do_write b w)
  serve (unwrap e ∷ cs) w = serve cs (record w { events = w.events ++ e ∷ [] })
  serve (panics ∷ cs) w = (w, false)

  -- The save after the handler, and the 500 where nothing has been committed.
  unfoldable pub finish : Writer → Writer
  finish w =
      let w' = save_session w in
      if w'.failed && not w'.wrote_header
      then record w' { events = w'.events ++ error_page ∷ [] }
      else w'

  -- A panic goes past the save after the handler.
  unfoldable pub finish_returned : Writer × Bool → Writer
  unfolding finish
  finish_returned (w, true) = finish w
  finish_returned (w, false) = w

  -- buildHandler: load, join, serve, and save.
  unfoldable pub build_handler : Values → (Bytes → Option Values) → List Call → Writer
  unfolding join_all serve finish_returned
  build_handler loaded split_cookies calls = finish_returned (
      serve calls (record {
        values = join_all shown split_cookies keys loaded;
        done = false;
        failed = false;
        wrote_header = false;
        events = [];
      }))

-- CheckSessionIdleNoAuth: whether the request is sent to onIdle. Times are in nanoseconds, and
-- time.Since of a time that was stored in seconds counts from the full second.
abbrev elapsed_over : ℕ → ℕ → ℤ → Bool
elapsed_over ttl now (pos s) = ltb (s * 1000000000 + ttl) now
elapsed_over ttl now (negsuc n) = ltb ttl (now + (n + 1) * 1000000000)

abbrev idle_at : ℕ → ℕ → ℤ → Bool
idle_at ttl now t = if eqb_ℤ t zero_time then false else elapsed_over ttl now t

unfoldable pub is_idle : ℕ → ℕ → Option Session → Bool
unfolding last_activity
is_idle ttl now none = false
is_idle ttl now (some s) = idle_at ttl now (last_activity (some s)).0
