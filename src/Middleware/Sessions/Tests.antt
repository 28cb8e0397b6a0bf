-- ===== src/Middleware/Sessions/Tests.antt =====
-- The session middleware at concrete requests.
use go_bananas.Base.{
  Bytes, inl, inr, ◌∙◌, sym, ap, ◌≡◌, refl, Bool, true, false, Option, none, some, List, [], ◌∷◌,
  codes, list_beq, ◌≤◌, ◌<◌, ◌+◌, ◌⊎◌, arith,
}
use go_bananas.Base.Dict
use go_bananas.Base.Result.{ok}
use go_bananas.Session.{Session, activity_key, unix, region_key, nonce_key, store_last_activity}
use go_bananas.Session.Access.{live}
use go_bananas.Values.{Key, flash_key, session_key, int64, key_eq, key_beq, str, Values}
use go_bananas.Middleware.Sessions.{
  Call, update, write_header, write, unwrap, panics, flush, main_cookie, body, status,
  build_handler, join_all, split_all, split_keys, is_idle, member, join_split_session_cookie,
  split_cookie_name, split_session_cookie, save_session, do_write_header, do_write, serve, finish,
  finish_returned,
}
use go_bananas.Middleware.Sessions.Split.{AreApart, last_cookie, lookup-join-split}
use go_bananas.Middleware.Sessions.Commit.{at_commit, committed, build_handler-committed}
use go_bananas.Middleware.Sessions.Survives.{main_of, companions_of, or_new, build_handler-survives}
use go_bananas.Middleware.Sessions.Idle.{is_idle-stored}

abbrev keys : List Key
keys = region_key ∷ nonce_key ∷ region_key ∷ []

abbrev held : Values
held = (region_key, str (codes "eu")) ∷ (nonce_key, str (codes "n")) ∷ []

-- A handler that changes the session, sets two statuses, writes and flushes.
abbrev calls : List Call
calls =
    update (Dict.insert nonce_key (str (codes "m")))
    ∷ write_header 201
    ∷ write_header 202
    ∷ write (codes "ok")
    ∷ unwrap flush
    ∷ []

abbrev never : Option Bytes → Values → Bool
never name vs = false

abbrev no_cookie : Bytes → Option Values
no_cookie name = none

abbrev printed : Bytes → Bytes
printed s = s

build_handler-committed_example :
    (build_handler printed keys never 5000000000 held no_cookie calls).events
    ≡ committed printed keys never 5000000000 calls (join_all printed no_cookie keys held)
build_handler-committed_example =
    build_handler-committed printed keys never 5000000000 held no_cookie calls tt

program : Unit {0}
unfolding Dict.lookup Dict.insert Dict.delete join_split_session_cookie join_all split_cookie_name
    split_session_cookie split_all split_keys member key_beq list_beq save_session do_write_header
    do_write serve finish finish_returned build_handler
program = tt

-- Flushed past the writer, the header is sent before the session is saved.
flushed_test :
    (build_handler printed [] never 5000000000 [] no_cookie
      (unwrap flush ∷ write (codes "ok") ∷ [])).events
    ≡ flush ∷ main_cookie ((activity_key, int64 (unix 5000000000)) ∷ []) ∷ body (codes "ok") ∷ []
unfolding program
flushed_test = refl

-- A handler that panics leaves the session unsaved.
panics_test :
    (build_handler printed keys never 5000000000 held no_cookie
      (update (Dict.insert nonce_key (str (codes "m"))) ∷ panics ∷ [])).events
    ≡ []
unfolding program
panics_test = refl

-- After early hints the handler's status is dropped.
informational_test :
    (build_handler printed [] never 5000000000 [] no_cookie
      (write_header 103 ∷ write_header 404 ∷ [])).events
    ≡ main_cookie ((activity_key, int64 (unix 5000000000)) ∷ []) ∷ status 103 ∷ []
unfolding program
informational_test = refl

-- The region is back after a save and a load.
joined_test :
    Dict.lookup region_key (
      join_all printed
        (last_cookie (split_all printed (split_keys keys) held).0)
        keys
        (split_all printed (split_keys keys) held).1)
    ≡ some (str (codes "eu"))
unfolding program
joined_test = refl

-- Two keys that print alike share a cookie, and one of the values is lost.
abbrev alike : List Key
alike = flash_key (codes "a") ∷ session_key (codes "a") ∷ []

abbrev both : Values
both = (flash_key (codes "a"), str (codes "f")) ∷ (session_key (codes "a"), str (codes "s")) ∷ []

alike_test :
    (let (saved, rest) = split_all printed (split_keys alike) both in
      let vs = join_all printed (last_cookie saved) alike rest in
      (Dict.lookup (flash_key (codes "a")) vs ≡ none)
      × (Dict.lookup (session_key (codes "a")) vs ≡ some (str (codes "s"))))
unfolding program
alike_test = (refl, refl)

listed : (k : Key) → member k keys ≡ true → (k ≡ region_key) ⊎ (k ≡ nonce_key)
unfolding member
listed k h = ground (arith, h, key_eq.equals_iff region_key k, key_eq.equals_iff nonce_key k)

split_names-differ : split_cookie_name printed region_key ≡ split_cookie_name printed nonce_key → ⊥
unfolding split_cookie_name
split_names-differ e = absurd (ground (arith, e))

keys-AreApart : AreApart printed keys
keys-AreApart j k there also e = go (listed j there) (listed k also)
  where
    go : (j ≡ region_key) ⊎ (j ≡ nonce_key) → (k ≡ region_key) ⊎ (k ≡ nonce_key) → j ≡ k
    go (inl p) (inl q) = p ∙ sym q
    go (inr p) (inr q) = p ∙ sym q
    go (inl p) (inr q) = absurd (
        split_names-differ
          (sym (ap (split_cookie_name printed) p) ∙ e ∙ ap (split_cookie_name printed) q))
    go (inr p) (inl q) = absurd (
        split_names-differ
          (sym (ap (split_cookie_name printed) q) ∙ sym e ∙ ap (split_cookie_name printed) p))

lookup-join-split_example :
    Dict.lookup nonce_key (
      join_all printed
        (last_cookie (split_all printed (split_keys keys) held).0)
        keys
        (split_all printed (split_keys keys) held).1)
    ≡ Dict.lookup nonce_key held
lookup-join-split_example = lookup-join-split printed keys held nonce_key keys-AreApart

activity-unlisted : member activity_key keys ≡ false
unfolding program
activity-unlisted = refl

never-fails : (name : Option Bytes) (vs : Values) → never name vs ≡ false
never-fails name vs = refl

-- The nonce that the handler has set before its first status.
build_handler-survives_example :
    (let es = (build_handler printed keys never 5000000000 held no_cookie calls).events in
      Dict.lookup nonce_key
        (join_all printed (last_cookie (companions_of es)) keys (or_new (main_of es)))
      ≡ Dict.lookup nonce_key (
          Dict.insert activity_key
            (int64 (unix 5000000000))
            (at_commit calls (join_all printed no_cookie keys held))))
build_handler-survives_example =
    build_handler-survives printed keys never 5000000000 never-fails held no_cookie calls nonce_key
      keys-AreApart activity-unlisted tt

is_idle-stored_example :
    (s : Option Session) × (store_last_activity (live held) 5000000001 ≡ ok s)
    × (((is_idle 60000000000 66000000000 s ≡ true)
          × (5000000001 + 60000000000 < 66000000000 + 1000000000))
        ⊎ ((is_idle 60000000000 66000000000 s ≡ false) × (66000000000 ≤ 5000000001 + 60000000000)))
is_idle-stored_example = is_idle-stored held 5000000001 66000000000 60000000000 (omega arith)
