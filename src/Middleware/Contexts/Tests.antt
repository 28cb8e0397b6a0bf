-- ===== src/Middleware/Contexts/Tests.antt =====
-- The contexts of concrete requests.
use go_bananas.Base.{◌≡◌, refl, [], ◌∷◌, Bytes, codes, bytes_eq, cut_prefix}
use go_bananas.Base.Dict
use go_bananas.Webctx.{ios, android, trace_id_from_context}
use go_bananas.Response.{round_trip, Request}
use go_bananas.Middleware.Contexts.{populate_trace_id, find_os, contains}
use go_bananas.Middleware.Contexts.Trace.{trace_header, IsSafe, round_trip-IsSafe}

abbrev asked : Request
asked = record {
  headers = (codes "X-Cloud-Trace-Context", codes "ab-1/7" ∷ []) ∷ [];
  host = codes "a.org";
  url = record { scheme = []; host = [] };
  context = [];
}

abbrev trim : Bytes → Bytes
trim s = s

-- An agent that names two systems gets the one whose key the iteration meets first.
find_os_test :
    (find_os ((codes "darwin", ios) ∷ (codes "dalvik", android) ∷ []) (codes "dalvik darwin") ≡ ios)
    × (find_os ((codes "dalvik", android) ∷ (codes "darwin", ios) ∷ []) (codes "dalvik darwin")
        ≡ android)
unfolding find_os contains cut_prefix
find_os_test = (refl, refl)

round_trip-IsSafe_example :
    IsSafe
      (Dict.lookup trace_header [])
      (Dict.lookup trace_header (round_trip (populate_trace_id trim asked) []))
unfolding trace_id_from_context Dict.lookup
round_trip-IsSafe_example = round_trip-IsSafe trim asked [] refl
