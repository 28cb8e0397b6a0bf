-- ===== src/Session/Tests.antt =====
-- The theorems on sessions at concrete ones.
use go_bananas.Base.{◌≡◌, refl, Option, none, some, [], ◌∷◌, codes, arith, list_beq}
use go_bananas.Base.Dict
use go_bananas.Base.Result.{ok, panic}
use go_bananas.Values.{key_eq, key_beq, opaque, int64}
use go_bananas.Session.{
  Session, csrf_key, activity_key, session_get, csrf_token, last_activity, store_csrf_token,
  store_last_activity, store_nonce, store_region, unix,
}
use go_bananas.Session.Access.{view, live, view-store}
use go_bananas.Session.Reads.{reads_clean, IsToken, IsActivity}
use go_bananas.Base.Int.{pos}

program : Unit {0}
unfolding csrf_token last_activity store_csrf_token store_last_activity store_nonce store_region
    key_beq list_beq Dict.lookup Dict.insert Dict.delete
program = tt

-- A session whose map is nil tolerates reads; a write to it panics.
nil_map_tests :
    (csrf_token (some (record { values = none })) ≡ ([], some (record { values = none })))
    × (store_nonce (some (record { values = none })) (codes "n") ≡ panic)
    × (store_nonce none (codes "n") ≡ ok none)
unfolding program
nil_map_tests = (refl, refl, refl)

-- A token of the wrong type reads as absent, and is deleted.
malformed_test : csrf_token (live ((csrf_key, opaque 1) ∷ [])) ≡ ([], live [])
unfolding program
malformed_test = refl

view-store_example :
    ((s : Option Session) × (store_csrf_token (live []) (1 ∷ 2 ∷ []) ≡ ok s)
      × (view s ≡ record (view (live [])) { token = 1 ∷ 2 ∷ [] }))
    × ((s : Option Session) × (store_last_activity (live []) 5000000001 ≡ ok s)
        × (view s ≡ record (view (live [])) { activity = unix 5000000001 }))
    × ((s : Option Session) × (store_nonce (live []) (codes "n") ≡ ok s)
        × (view s ≡ record (view (live [])) { nonce = codes "n" }))
    × ((s : Option Session) × (store_region (live []) (codes "n") ≡ ok s)
        × (view s ≡ record (view (live [])) { region = codes "n" }))
view-store_example = view-store [] 1 (2 ∷ []) 5000000001 (codes "n") (omega arith)

abbrev mixed : Option Session
mixed = live ((csrf_key, opaque 1) ∷ (activity_key, int64 (pos 0)) ∷ [])

reads_clean_example :
    (view (csrf_token mixed).1 ≡ view mixed)
    × IsToken (session_get (csrf_token mixed).1 csrf_key)
    × (view (last_activity mixed).1 ≡ view mixed)
    × IsActivity (session_get (last_activity mixed).1 activity_key)
reads_clean_example = reads_clean mixed
