-- ===== src/Middleware/Guards/Tests.antt =====
-- The guards at concrete requests.
use go_bananas.Webctx.{Entry}
use go_bananas.Base.{◌≡◌, refl, [], ◌∷◌, Bytes, codes, Member}
use go_bananas.Response.{Request, header_values}
use go_bananas.Middleware.Guards.{require_header_values, strip_host_port, index_of, before}
use go_bananas.Middleware.Guards.Passes.{Guards, require_header_values-Guards}

abbrev asked : Request
asked = record {
  headers = (codes "X-Key", codes "a" ∷ codes "b" ∷ []) ∷ [];
  host = codes "a.org";
  url = record { scheme = []; host = [] };
  context = [];
}

abbrev trim : Bytes → Bytes
trim s = s

abbrev shown : Entry → Bytes
shown e = []

-- The port of a host is cut at the first colon, also within an IPv6 address.
strip_host_port_test :
    (strip_host_port (codes "a.org:80") ≡ codes "a.org")
    × (strip_host_port (codes "[::1]:80") ≡ codes "[")
unfolding strip_host_port index_of before
strip_host_port_test = (refl, refl)

require_header_values-Guards_example :
    Guards trim shown
      (require_header_values trim shown (codes "X-Key") (codes "b" ∷ []) asked)
      asked
      ((v : Bytes) × Member v (header_values asked (codes "X-Key")) × Member v (codes "b" ∷ []))
require_header_values-Guards_example =
    require_header_values-Guards trim shown (codes "X-Key") (codes "b" ∷ []) asked
